-- ===== src/Parser.antt =====
-- src/parser: from the text of a statement to the statement.
pub mod Ast
pub mod Token
pub mod Lexer
pub mod Cursor
pub mod Clauses
pub mod Statements
pub mod Interface
