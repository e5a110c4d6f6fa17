-- ===== src/Knn.antt =====
-- python/src/spark_rapids_ml/knn.py: exact nearest neighbours.
pub mod Ids
pub mod Rows
pub mod Fit
pub mod Positions
pub mod FitLaws
pub mod Columns
pub mod ColumnsLaws
pub mod Frames
pub mod Join
pub mod JoinLaws
pub mod Query
pub mod QueryLaws
pub mod QueryRows
pub mod QueryIds
pub mod FitQuery
pub mod JoinQuery
pub mod Stage
pub mod StageLaws
