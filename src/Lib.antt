-- ===== src/Lib.antt =====
-- Spark RAPIDS ML, the Python library under python/src/spark_rapids_ml: estimators and models with
-- the interface of pyspark.ml that train and predict with cuML on the GPUs of a Spark cluster.
--
-- The program's parts and how they interact. An algorithm declares which cuML classes it stands for
-- and how Spark params map to cuML parameters (`_CumlClass`). Its estimators and models keep both
-- sides together (`_CumlParams`). A fit selects and casts the columns of a dataset, runs one barrier
-- task for each worker, and makes a model of the row that the first task returns (`_CumlCaller`,
-- `_CumlEstimator`). Each task picks a GPU, joins the other tasks' communicator (`CumlContext`) and
-- calls the algorithm's fit function, which exchanges messages by `allGather` and calls cuML. A model
-- adds columns to a dataset (`_CumlModelWithColumns`). Estimators and models are saved and loaded.
--
-- Which file models what:
--   Base, Base/Tests, Base/Lists, Base/Perm: names from the libraries, Boolean tests, lists over native
--     numbers, lists that differ in their order.
--   Py: exceptions, results, and methods that write an object's fields before they raise.
--     Py/Dict: `dict` with string keys. Py/Value: the values of params.
--   Params/Spark: pyspark's Params, an interface with the behaviour that is relied on.
--   Params/Class, Params/Values, Params/Set, Params/Lifecycle, Params/Columns, Params/Workers:
--     params.py. The record `Instance` holds `_cuml_params`, `_num_workers` and the state of the Spark
--     params; every method is a function of its name, with nested statements as helpers.
--     Params/Keeps, Params/Sync, Params/Defaults, Params/Reset, Params/Errors and Params/Supported
--     prove what they do.
--   Core/Columns, Core/Features, Core/Labels: the `_pre_process_data` and `_pre_process_label` of
--     core.py and classification.py, over column expressions as syntax. Core/Selection and
--     Core/SingleColumn prove what is selected.
--   Core/Inputs: the loop of `_train_udf` over a task's pandas frames, with Core/InputsLaws.
--   Core/Train: `_call_cuml_fit_func` and `_fit` of core.py. Core/TrainLaws, Core/FitReturns and
--     Core/StageRuns: what is collected, and when a stage and a fit return.
--   Core/Transform, Core/Names, Core/Udf, Core/Predict: `_pre_process_data` and the two `_transform`
--     of the models in core.py, the names of the columns that are added, and the udfs, with
--     Core/TransformLaws, Core/TableLaws and Core/PredictLaws.
--   Core/Persist: the writers and readers of core.py.
--   Common/Context: common/cuml_context.py, with Common/ContextLaws. Common/Stage: the contexts of the
--     tasks of a stage, and `_require_nccl_ucx`.
--   Utils/Devices, Utils/Partitions, Utils/Arrays: utils.py, and the device and log level of core.py.
--   Tree/Estimators, Tree/Fit, Tree/Task: tree.py, with Tree/FitLaws. Tree/TaskLaws follows a fit from
--     the partitions to the forest.
--   Regression/Fit, Regression/Task: the fit function of LinearRegression in regression.py, with
--     Regression/FitLaws. Regression/TaskLaws follows a fit from the partitions to the model.
--   Knn/Ids, Knn/Rows, Knn/Fit: the id column and the task of each worker in knn.py, with Knn/Positions
--     and Knn/FitLaws. Knn/Columns, Knn/Frames, Knn/Query, Knn/Join, Knn/JoinQuery:
--     `_pre_process_data`, the data frames of `_fit`, `kneighbors`, and `exactNearestNeighborsJoin`,
--     where a data frame is a list of rows. Knn/ColumnsLaws, Knn/QueryLaws, Knn/QueryRows,
--     Knn/QueryIds, Knn/FitQuery and Knn/JoinLaws prove what they do.
--     Knn/Stage, with Knn/StageLaws: the tasks of `kneighbors` as those of a stage of Core/Train.
--   Models/Rows, Models/Objects: the rows that the fit functions return, the schemas, `from_row` and the
--     constructors of the models, with Models/RowsLaws, and cuML's objects that the transforms make
--     of them.
--   Models/Fitting, Models/Task: the fit functions of clustering.py and feature.py, with
--     Models/FittingLaws. Models/TaskLaws and Models/KmeansLaws follow a fit of PCA and one of KMeans
--     from the partitions to the model, by Models/Jobs, which does so for any fit that returns a row.
--   Models/Pca: the matrix of components, the constructor and the transform of PCAModel, with
--     Models/PcaLaws. Models/Cpu: `cpu` and `predict` of the models.
--   Models/Added, Models/Predict: the columns that each model's transform adds, and what it makes of a
--     batch, with Models/Scores. Models/PredictLaws goes from the row of a fit to the predictions of a dataset.
--   Algorithms/Classes, Algorithms/Setters, Algorithms/Constructors: the declarations, the setters and
--     the constructors of clustering.py, feature.py, regression.py, classification.py, tree.py and
--     knn.py, with Algorithms/FeaturesCol.
--   Tests: concrete counterparts of the interfaces, and runs of the code.
--
-- Code of other packages is a parameter: pyspark's params, data frames and barrier contexts, numpy,
-- json, pickle and base64, CUDA, NCCL, UCX and cuML. Floats are a type with the operations that the
-- code uses, and the type of messages is a parameter. The number of rows and of trees are natural
-- numbers; the quotient of trees and workers, which the code takes of floats, is that of numbers.
-- All loops are structural, so that there is no fuel.
--
-- Not modelled: plain getters; log messages; the benchmarks, the notebooks and the JVM plugin.
pub mod Base
pub mod Py
pub mod Params
pub mod Tree
pub mod Utils
pub mod Core
pub mod Common
pub mod Regression
pub mod Knn
pub mod Algorithms
pub mod Models
pub mod Tests
