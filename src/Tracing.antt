-- ===== src/Tracing.antt =====
-- tracing.go: the tracer. The children model its parts: the tree of calls, the gathering of the
-- signatures, the decoding of one call, the walk over the tree, the calls that the trace misses, and
-- DecodeTrace.
pub mod Calls
pub mod Gather
pub mod Walk
pub mod Decode
pub mod Missing
pub mod Trace
