-- ===== src/Cli.antt =====
-- src/cli: the command line. The client reads statements from a terminal and shows what the server
-- answers; the server reads its port.
pub mod Display
pub mod ClientMain
pub mod ServerMain
