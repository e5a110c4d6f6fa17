-- ===== src/Algorithms/Constructors.antt =====
-- The constructors of the estimators: `_CumlCaller.__init__` of core.py and those of clustering.py,
-- feature.py, regression.py, tree.py, classification.py and knn.py.
use spark_rapids_ml.Base.{
  String, ◌≡◌, ◌≢◌, refl, ◌∙◌, true, Option, none, some, [], ◌∷◌, Bool-cases, inl, inr,
  if◌then◌else◌,
}
use spark_rapids_ml.Py.{Result, ok, err, Exec, return, ◌>>◌, continue}
use spark_rapids_ml.Py.Dict.{Dict, get, has, NodupKeys}
use spark_rapids_ml.Py.Value.{pos, Value, int, str}
use spark_rapids_ml.Params.Spark.{SparkParams, IsLawful}
use spark_rapids_ml.Params.Class.{CumlClass, distinct_targets}
use spark_rapids_ml.Params.Values.{Instance, set_cuml_value}
use spark_rapids_ml.Params.Lifecycle.{initialize_cuml_params}
use spark_rapids_ml.Params.Set.{sets_both_sides, set_params}
use spark_rapids_ml.Params.Keeps.{Keeps, set_each-Keeps}
use spark_rapids_ml.Params.Sync.{set_params-Reflects}
use spark_rapids_ml.Params.Defaults.{Holds, initialize-Holds, initialize-spark}
use spark_rapids_ml.Core.Columns.{label_alias}

-- The state before has the Spark params with their defaults.
module _ {F : Type 0} {P : SparkParams F} (C : CumlClass F) where
  -- `__init__` of KMeans, of PCA and of LinearRegression
  unfoldable pub make_estimator : Dict (Value F) → Exec (Instance P) Unit
  make_estimator kwargs = initialize_cuml_params C >> set_params C kwargs

  -- `__init__` of _RandomForestEstimator
  unfoldable pub make_forest : Dict (Value F) → Exec (Instance P) Unit
  unfolding make_estimator
  make_forest kwargs =
      make_estimator kwargs
      >> (if has kwargs "n_streams" then return tt else set_cuml_value C "n_streams" (int (pos 1)))

  -- RandomForestClassifier passes the keywords on, and sets them again.
  unfoldable pub make_classifier : Dict (Value F) → Exec (Instance P) Unit
  unfolding make_forest
  make_classifier kwargs = make_forest kwargs >> set_params C kwargs

  -- RandomForestRegressor does not pass them on.
  unfoldable pub make_regressor : Dict (Value F) → Exec (Instance P) Unit
  unfolding make_forest
  make_regressor kwargs = make_forest [] >> set_params C kwargs

  unfoldable pub make_nearest_neighbors : Dict (Value F) → Exec (Instance P) Unit
  unfolding make_estimator
  make_nearest_neighbors kwargs =
      make_estimator kwargs >> set_params C (("labelCol", str label_alias) ∷ [])

module _ {F : Type 0} {P : SparkParams F} where
  -- What holds after the second of two blocks, if both ran to their ends.
  continued :
      (Q : Instance P → Type 0) (f : Exec (Instance P) Unit) (r : Result Unit) (t : Instance P)
      → (r ≡ ok tt → (f t).0 ≡ ok tt → Q (f t).1)
      → (continue r (λ _. f) t).0 ≡ ok tt
      → Q (continue r (λ _. f) t).1
  continued Q f (ok tt) t k h = k refl h
  continued Q f (err e) t k h = cc

module _ {F : Type 0} {P : SparkParams F} (L : IsLawful P) (C : CumlClass F)
    (kwargs : Dict (Value F)) (j c : String) (v : Value F) (s : Instance P) where
  -- The keyword `j` has this value, or it is not given, nor is the cuML parameter that it is mapped
  -- to, and this is the default of the Spark param.
  abbrev pub IsGivenBy : Option (Value F) → Type 0
  IsGivenBy (some w) = w ≡ v
  IsGivenBy none =
      (get kwargs c ≡ none) × (P.has_default s.spark j ≡ true) × (P.get s.spark j ≡ ok v)

  set_params-Keeps :
      (t : Instance P)
      → NodupKeys C.param_mapping
      → distinct_targets C.param_mapping ≡ true
      → c ≢ ""
      → get C.param_mapping j ≡ some (some c)
      → get kwargs j ≡ none
      → get kwargs c ≡ none
      → (set_params C kwargs t).0 ≡ ok tt
      → Keeps L j c t (set_params C kwargs t).1
  unfolding set_params
  set_params-Keeps t u d n e gj gc h = elim (Bool-cases (sets_both_sides C.param_mapping kwargs)) [
    | inl b ↦ cc
    | inr b ↦ rw b (set_each-Keeps L C kwargs j c t u d n e gj gc)
  ]

  make_estimator-Holds_of :
      (o : Option (Value F))
      → get kwargs j ≡ o
      → NodupKeys C.param_mapping
      → distinct_targets C.param_mapping ≡ true
      → NodupKeys kwargs
      → P.has_param s.spark j ≡ true
      → get C.param_mapping j ≡ some (some c)
      → c ≢ ""
      → IsGivenBy o
      → (make_estimator C kwargs s).0 ≡ ok tt
      → Holds C c v (make_estimator C kwargs s).1
  unfolding make_estimator
  make_estimator-Holds_of (some w) q u d nk p e n g h =
      continued (Holds C c v) (set_params C kwargs) (initialize_cuml_params C s).0
        (initialize_cuml_params C s).1
        (λ _ k.
          let r =
            set_params-Reflects L C kwargs j c w (initialize_cuml_params C s).1 u d nk q
              (rw (initialize-spark C s) p) e n k in
          record {
            written = r.written;
            translated = rw (← g) r.translated;
            cuml_side = r.cuml_side;
          })
        h
  make_estimator-Holds_of none q u d nk p e n (gc, def, val) h =
      continued (Holds C c v) (set_params C kwargs) (initialize_cuml_params C s).0
        (initialize_cuml_params C s).1
        (λ i k.
          let held = initialize-Holds L C j c v s u d e n def val i in
          let kept = set_params-Keeps (initialize_cuml_params C s).1 u d n e q gc k in
          record {
            written = held.written;
            translated = held.translated;
            cuml_side = kept.cuml_side ∙ held.cuml_side;
          })
        h

  -- If the constructor of KMeans, PCA or LinearRegression returns, then a cuML parameter that a Spark
  -- param of the class is mapped to holds the translation of the keyword's value, or, where neither
  -- this keyword nor the cuML parameter's own name is given, of the param's default, whatever cuML's
  -- own default is. Assumed: the keywords are distinct, as are the Spark names of the mapping and the
  -- cuML names that they are mapped to.
  pub make_estimator-Holds :
      NodupKeys C.param_mapping
      → distinct_targets C.param_mapping ≡ true
      → NodupKeys kwargs
      → P.has_param s.spark j ≡ true
      → get C.param_mapping j ≡ some (some c)
      → c ≢ ""
      → IsGivenBy (get kwargs j)
      → (make_estimator C kwargs s).0 ≡ ok tt
      → Holds C c v (make_estimator C kwargs s).1
  make_estimator-Holds = make_estimator-Holds_of (get kwargs j) refl
