-- ===== src/Lib.antt =====
-- MiniDB: a small relational database in C++. A client sends one SQL statement at a time as a line
-- of JSON; the server parses it, executes it on the open database and answers with a line of JSON.
--
-- The program's parts, and where they are modelled:
-- - src/core: `String` and `Vector`, used in place of the standard library's. A string is the list
--   of its bytes (Bytes, Base.Text) and a vector the list of its cells (Base.Lists). Core.Vector
--   has the buffer behind such a list (vector.hpp), Core.Vector.Assign the copy and the move of one vector
--   into another, Core.Strings the objects of strings and their
--   blocks in memory (string.hpp), and Core.Shift the loops by which the other
--   parts shift the cells of a vector, one copy at a time.
-- - src/storage: Storage.Value (row.cpp: `Value`, `Row`, `Value::compare`), Storage.Table (column.cpp
--   and table.cpp: the schema and the rows), Storage.File (table.cpp: `load_from_file`, which no part of
--   the program calls but a test; `save_to_file` is in Storage.Database), Storage.Index (index.cpp: sorted
--   entries under a binary search), Storage.Database (database.cpp: the three parallel
--   vectors of names, tables and indexes), Storage.Registry (the registry at the end of database.cpp,
--   which the program does not call) and Storage.Disk (the file system, a parameter: a record
--   of the calls that the program makes).
-- - src/parser: Parser.Token and Parser.Lexer (lexer.cpp), Parser.Ast (ast.hpp), and the recursive
--   descent of parser.cpp in Parser.Cursor (the position among the tokens), Parser.Clauses (lists,
--   WHERE, values) and Parser.Statements (one function per statement, `parse`). Parser.Interface is the
--   C interface to it (parser_c.cpp and include/minidb/parser.h): the blocks that a statement owns, and
--   in Parser.Interface.Accessors the functions that read it.
-- - src/execution: Execution.State (the executor's fields, results and guards), Execution.Ddl,
--   Execution.Where, Execution.Select, Execution.Delete, Execution.Insert, Execution.Update (one
--   handler each) and Execution.Executor (the dispatch, the constructor and `shutdown`).
-- - src/network: Network.Protocol (protocol.cpp: the JSON of answers and requests), Network.Response
--   (protocol.cpp: `serialize_response`, which a test calls and the server does not), Network.Client
--   (client.cpp: a connection for each request, on Network.Sockets, the sockets of the system as a
--   parameter), Network.Listen (server.cpp: the opening of the socket, with the success of
--   each call as a parameter) and Network.Server (server.cpp: the lines of a connection,
--   the answer to a request, the loops over requests and over connections, `run_server`).
-- - src/cli: Cli.Display (`display_response` of client_main.cpp), Cli.ClientMain and Cli.ServerMain (the
--   two programs, from their arguments to the exit code).
-- A module that is named for a property under one of these (Storage.Index.Insert, Parser.Cursor.Bounds,
-- Network.Server.Lines, ...) holds proofs. Execution.Reach has the executor as a state machine, and
-- Execution.Compose two statements one after the other; Network.Session has a client and the server at
-- the two ends of a connection. Base has the helpers that all share, Tests runs the
-- definitions on a small database and applies the theorems to it.
--
-- State and operations. A function of the program is a function of its name on records of its
-- fields: `Executor` has `_data_root`, `_current_db`, its name and the global result table, and
-- the disk beside them. What the C++ changes in place is returned. A handler gives none where the program
-- would read outside a vector or follow a null pointer, so a fault is a value of the model; an error of the program is an `ExecResult` with the status error. A pointer to a
-- table is the table's position in its database (Slot), under which the changed table is written back.
-- The parser is a monad on the tokens that are left, with the AST in place of the member that the
-- C++ fills.
--
-- Numbers and fuel. Positions and sizes are natural numbers, where the program has std::size_t and
-- int: a table of more rows than an int holds is outside the model. The C `int` of `strtol`, `atoi`
-- and of values wraps at 2 ^ 32 (Base.Text). The binary search has the size of the vector and one more as its fuel;
-- the lexer has the length of the text, and the loops of the parser the number of the tokens.
-- A loop without fuel gives none, as a fault does.
--
-- The loops that shift the cells of a vector have its size and one more as their fuel, and every access of
-- theirs is tested (Core.Shift).
--
-- Sockets are parameters: to the server a connection is the bytes that its client sends until it closes its end,
-- and a function that says how the writing of each answer ends: done, with an error, or by SIGPIPE, which the
-- program leaves at its default, so that it kills the server. The server has the connections that
-- it accepts as a list, and the loop over the requests of one has the number of its bytes and one
-- more as its fuel.
--
-- Not modelled: the accessors of `String` and `Vector` that give a pointer or a reference (`data`, `begin`, `end`,
-- `c_str`), `expect` of parser.cpp, which nothing calls, and SIGPIPE in the client, whose `write` succeeds or returns
-- an error.
pub mod Base
pub mod Core
pub mod Storage
pub mod Parser
pub mod Execution
pub mod Network
pub mod Cli
mod Tests
