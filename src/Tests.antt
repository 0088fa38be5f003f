-- ===== src/Tests.antt =====
-- Runs of the model on small inputs, and the theorems of the other modules at such inputs.
mod World
mod Undone
mod Zones
mod Rewrites
mod Adoptions
mod Declared
mod Drifted
mod Flows
mod Plans
mod Chains
mod Renames
mod Parts
mod Reads
mod Locators
