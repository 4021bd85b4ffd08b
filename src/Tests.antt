-- ===== src/Tests.antt =====
-- Runs of the model on small inputs.
mod Samples
mod Ledger
mod Controls
mod Contracts
mod Simulator
mod Transport
mod Sleeves
mod Stops
mod Routing
