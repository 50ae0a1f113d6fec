-- ===== src/Tests/ParserTests.antt =====
-- Tests of src/parser: statements and errors.
use cpp_db.Parser.Statements.{parse}
use cpp_db.Parser.Interface.{Heap, minidb_parse, minidb_stmt_error, minidb_stmt_free}
use cpp_db.Base.{◌>>=◌, [], Returns, codes, refl, some, ◌≡◌}
use cpp_db.Parser.Ast.{SqlStatement}
use cpp_db.Parser.Lexer.Tokens.{Tokens, tokenize-Tokens}
use cpp_db.Tests.Fixtures.{delete_1, insert_2}
use cpp_db.Parser.Lexer.{tokenize}
use cpp_db.Parser.Statements.Shape.{IsFormed, parse-IsFormed}
use cpp_db.Parser.Interface.Blocks.{SameBlocks}
use cpp_db.Parser.Interface.Accessors.{minidb_get_insert, minidb_stmt_kind}
use cpp_db.Parser.Interface.Readback.{minidb_parse-read_stmt}
use cpp_db.Parser.Interface.Lifetime.{minidb_stmt_free-SameBlocks, read_errors}
use cpp_db.Parser.Interface.Caller.{read_stmt, visible}

parse_delete_runs :
    parse (codes "DELETE FROM people WHERE id = 1;") ≡ some (SqlStatement.delete delete_1)
unfolding parse
parse_delete_runs = refl

parse-insert_runs :
    parse (codes "insert into people values (2, \"bob\")") ≡ some (SqlStatement.insert insert_2)
unfolding parse
parse-insert_runs = refl

parse_error_runs :
    parse (codes "drop people")
    ≡ some (SqlStatement.invalid (codes "Line 1:6: Expected 'DATABASE' or 'TABLE' after 'DROP'"))
unfolding parse
parse_error_runs = refl

tokenize-Tokens_example : Returns (tokenize (codes "use db")) Tokens
tokenize-Tokens_example = tokenize-Tokens (codes "use db")

parse-IsFormed_example : Returns (parse (codes "use db")) IsFormed
parse-IsFormed_example = parse-IsFormed (codes "use db")

abbrev empty_heap : Heap
empty_heap = record { next = 1; live = [] }

read_insert_runs :
    (minidb_parse (codes "insert into people values (2, \"bob\")") empty_heap >>= λ r.
    read_stmt r.0.content r.1)
    ≡ some (SqlStatement.insert insert_2)
unfolding minidb_parse minidb_stmt_kind minidb_get_insert
read_insert_runs = refl

free_runs :
    (minidb_parse (codes "create table t (id int primary, n string)") empty_heap >>= λ r.
    read_errors 2 r.0 r.1 >>= λ s. minidb_stmt_free s.0 s.1.live)
    ≡ some []
unfolding minidb_parse minidb_stmt_free minidb_stmt_error
free_runs = refl

minidb_parse-read_stmt_example :
    (minidb_parse (codes "select id from people") empty_heap >>= λ r. read_stmt r.0.content r.1)
    ≡ (parse (codes "select id from people") >>= λ ast. some (visible ast))
minidb_parse-read_stmt_example = minidb_parse-read_stmt (codes "select id from people") empty_heap

minidb_stmt_free-SameBlocks_example :
    Returns
      (minidb_parse (codes "drop people") empty_heap >>= λ r.
        read_errors 2 r.0 r.1 >>= λ s. minidb_stmt_free s.0 s.1.live)
      (λ live. SameBlocks live [])
minidb_stmt_free-SameBlocks_example = minidb_stmt_free-SameBlocks (codes "drop people") empty_heap 2
