-- ===== src/Tests.antt =====
-- Runs of the definitions on small inputs, and uses of the theorems on them.
mod Data
mod Reading
mod Sums
mod Sets
mod Printing
mod Chains
mod Programs
mod Records
mod Wholes
