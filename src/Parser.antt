-- ===== src/Parser.antt =====
-- parser/: SQL text to tokens, and tokens to statements.
pub mod Token
pub mod Tokenizer
pub mod Ast
pub mod Stream
pub mod Literal
pub mod Expression
pub mod Tables
pub mod Selection
pub mod Statement
