-- ===== src/Eval.antt =====
-- src/mea_eval.c: the evaluator of numeric expressions. A text is compiled to code for a stack
-- machine, the code is kept in a cache, and it is run against the variables' present values.
pub mod Outcome
pub mod Double
pub mod Lexer
pub mod Compile
pub mod Run
pub mod Tests
mod Examples
pub mod Tree
pub mod Cache
