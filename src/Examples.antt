-- ===== src/Examples.antt =====
-- Runs of the model at concrete inputs.
mod Values
mod Types
mod Parts
mod Targets
mod Pricing
mod Keys
mod Composites
mod Arguments
mod Payloads
mod Deploys
mod Builders
mod Clients
mod Blocks
mod Amounts
