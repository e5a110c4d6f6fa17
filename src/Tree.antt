-- ===== src/Tree.antt =====
-- python/src/spark_rapids_ml/tree.py: the random forests.
pub mod Estimators
pub mod Fit
pub mod FitLaws
pub mod Task
pub mod TaskLaws
