-- ===== src/Examples.antt =====
-- The theorems at concrete inputs, and tests of the definitions.
mod Demo
mod Reviewing
mod Evaluating
mod Storing
mod Validating
mod Trusting
mod Reducing
mod Reserving
mod Expanding
