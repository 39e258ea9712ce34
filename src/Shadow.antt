-- ===== src/Shadow.antt =====
-- runtime/DynamicTypeChecks: the run-time library of the dynamic type checks.
pub mod Memory
pub mod Runtime
pub mod LibCalls
pub mod NetCalls
pub mod Tags
pub mod Arrays
pub mod VarArgs
mod Examples
