-- ===== src/GradientPolicy.antt =====
-- mom/Policy/GradientPolicy.py: the policy that moves memory along the gradient of the fairness.
-- `Fitting` is its estimate of the speed of a guest, `VmInfo` what it knows of one guest, `Allocate`
-- moves memory between guests, `Evaluate` is one round. The modules behind them hold the proofs.
pub mod Fitting
pub mod VmInfo
pub mod Allocate
pub mod Evaluate
pub mod Tests
