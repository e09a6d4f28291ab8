-- ===== src/Phase.antt =====
-- phase: whether a packet counts for the formation of a phase (eligibility.py), and whether an
-- observation passes a threshold (threshold.py).
pub mod Eligibility
pub mod Contributing
pub mod Threshold
pub mod Distance
pub mod Accepting
