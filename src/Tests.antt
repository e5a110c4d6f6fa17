-- ===== src/Tests.antt =====
-- The development at concrete values: a table of params, and runs of the code on small inputs.
pub mod Table
pub mod Sorting
pub mod Knn
pub mod Pca
pub mod Fitting
pub mod Params
pub mod Columns
pub mod Workers
pub mod Setters
pub mod Arrays
pub mod Models
pub mod Stages
pub mod Jobs
pub mod Predict
pub mod Contexts
pub mod Neighbors
pub mod Regressions
pub mod Clusters
