-- ===== src/Parse.antt =====
-- matcher/parse/: the lexer and the parser of matchers.
pub mod Lexer
pub mod Parser
pub mod States
