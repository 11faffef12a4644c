-- ===== src/RpPolicy.antt =====
-- mom/Policy/RPPolicy.py: the performance-fairness policy. `Fitting` estimates the speed of a
-- guest, `VmInfo` is what the policy knows of one guest, `Allocate` moves memory between guests,
-- `Evaluate` is one round. The modules behind them hold the proofs.
pub mod Fitting
pub mod VmInfo
pub mod Allocate
pub mod Evaluate
pub mod Tests
