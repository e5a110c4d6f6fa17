-- ===== src/Models.antt =====
-- The models that the estimators of clustering.py, feature.py, regression.py and tree.py make.
pub mod Rows
pub mod RowsLaws
pub mod Pca
pub mod PcaLaws
pub mod Fitting
pub mod FittingLaws
pub mod Objects
pub mod Cpu
pub mod Jobs
pub mod Task
pub mod TaskLaws
pub mod KmeansLaws
pub mod Added
pub mod Predict
pub mod Scores
pub mod PredictLaws
