-- ===== src/FuPolicy.antt =====
-- mom/Policy/FUPolicy.py: the policy that joins fairness over time with the use of the memory.
-- `Algorithm` is its class of that name, `Evaluate` one round. The modules behind them hold the
-- proofs.
pub mod Algorithm
pub mod Evaluate
pub mod Tests
