-- ===== src/Params.antt =====
-- python/src/spark_rapids_ml/params.py: `_CumlClass` and `_CumlParams`.
pub mod Spark
pub mod Class
pub mod Values
pub mod Set
pub mod Keeps
pub mod Sync
pub mod Lifecycle
pub mod Reset
pub mod Defaults
pub mod Errors
pub mod Supported
pub mod Columns
pub mod Workers
