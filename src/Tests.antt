-- ===== src/Tests.antt =====
-- Runs of the model on concrete inputs, and the theorems applied to inputs that meet their hypotheses.
mod HeaderCache
mod Funding
mod Pragma
mod Client
mod Transactions
mod Traces
mod Tracing
mod Config
mod Contracts
mod Floats
mod GasAdjuster
mod Retries
mod TxDecode
mod Transfer
mod JsonArray
