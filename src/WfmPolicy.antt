-- ===== src/WfmPolicy.antt =====
-- mom/Policy/WFMPolicy.py: long-term resource fairness, which serves the guests that have used the
-- least memory for their weight first. `VmInfo` is what the policy knows of one guest, `Evaluate`
-- one round. The modules behind them hold the proofs.
pub mod VmInfo
pub mod Evaluate
pub mod Tests
