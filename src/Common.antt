-- ===== src/Common.antt =====
-- python/src/spark_rapids_ml/common: the communication between the workers.
pub mod Context
pub mod ContextLaws
pub mod Stage
