-- ===== src/Regression.antt =====
-- python/src/spark_rapids_ml/regression.py: linear regression.
pub mod Fit
pub mod FitLaws
pub mod Task
pub mod TaskLaws
