-- ===== src/Language.antt =====
-- mom/Policy/Parser.py: the evaluator of the policy language. The modules below hold its parts:
-- `Syntax` the tokens and the code tree, `Action` the effects, `Python` what the interpreter of
-- the source gives, `Scopes` the variable stack, `Dispatch` the call of a built-in, `Handlers` the
-- built-ins, `Eval` the evaluator.
pub mod Syntax
pub mod Action
pub mod Python
pub mod Scopes
pub mod Dispatch
pub mod Handlers
pub mod Eval
pub mod Balance
pub mod Enough
pub mod Tests
