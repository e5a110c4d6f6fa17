-- ===== src/Core.antt =====
-- python/src/spark_rapids_ml/core.py.
pub mod Columns
pub mod Features
pub mod Selection
pub mod SingleColumn
pub mod Labels
pub mod Transform
pub mod Names
pub mod Udf
pub mod Predict
pub mod TableLaws
pub mod PredictLaws
pub mod TransformLaws
pub mod Persist
pub mod Inputs
pub mod InputsLaws
pub mod Train
pub mod TrainLaws
pub mod FitReturns
pub mod StageRuns
