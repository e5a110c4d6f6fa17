-- ===== src/Algorithms.antt =====
-- What each algorithm declares and sets: clustering.py, feature.py, regression.py, tree.py,
-- classification.py and knn.py.
pub mod Classes
pub mod Setters
pub mod FeaturesCol
pub mod Constructors
