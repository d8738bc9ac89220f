-- ===== src/Interp.antt =====
-- src/interp.rs: the language of watch expressions. The children hold its syntax trees, the lexer,
-- the parser, the functions on whole expressions, and the theorems about them.
pub mod Result
pub mod Syntax
pub mod Input
pub mod Token
pub mod Number
pub mod Lexer
pub mod Build
pub mod Forms
pub mod Parser
pub mod Watch
pub mod Keeps
pub mod Lexing
pub mod Tokens
pub mod Ahead
pub mod Taking
pub mod Signs
pub mod Signed
pub mod WellFormed
pub mod Steps
pub mod Types
pub mod Loops
pub mod Fields
pub mod Words
pub mod Operators
pub mod Behind
pub mod Rounds
pub mod Safe
pub mod Adjust
pub mod Integers
pub mod Grouping
pub mod Names
pub mod Variable
