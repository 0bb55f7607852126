-- ===== src/Tests.antt =====
-- Runs on concrete inputs, and the theorems at inputs that meet their hypotheses.
mod Emission
mod Cleansing
mod Matching
mod Tracking
mod Nested
mod Files
mod Reports
mod Lines
