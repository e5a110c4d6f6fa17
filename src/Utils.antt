-- ===== src/Utils.antt =====
-- python/src/spark_rapids_ml/utils.py, and the static helpers of core.py that set up a task.
pub mod Partitions
pub mod Devices
pub mod Arrays
