-- ===== src/Aqls.antt =====
-- The parser of the aqls language (parsing-example/aqls-parser/src/aqls-parser).
pub mod Token
pub mod Lexer
pub mod Ast
pub mod Parser
mod Tests
