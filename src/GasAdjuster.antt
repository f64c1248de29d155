-- ===== src/GasAdjuster.antt =====
-- gas_adjuster.go: the congestion of the network and the fees that are suggested for it.
-- Floats has the arithmetic on float64, Headers the goroutines that fetch block headers, Metric the
-- congestion metrics, and Fees the two suggestions.
pub mod Floats
pub mod Headers
pub mod Metric
pub mod Fees
