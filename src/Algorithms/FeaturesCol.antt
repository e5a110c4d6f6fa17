-- ===== src/Algorithms/FeaturesCol.antt =====
-- Setters and getters together.
use spark_rapids_ml.Base.{
  ℕ, ◌≤◌, String, ◌≡◌, refl, true, false, none, List, [], ◌∷◌, Bool-cases, inl, inr,
}
use spark_rapids_ml.Py.{Result, ok, err, return, continue}
use spark_rapids_ml.Py.Dict.{get}
use spark_rapids_ml.Py.Value.{ℤ, pos, negsuc, Value, str, strs}
use spark_rapids_ml.Params.Spark.{SparkParams, IsLawful}
use spark_rapids_ml.Params.Class.{CumlClass}
use spark_rapids_ml.Params.Values.{Instance, set_cuml_param}
use spark_rapids_ml.Params.Set.{sets_both_sides, stored, set_spark, set_param, set_each, set_params}
use spark_rapids_ml.Algorithms.Setters.{set_one, set_features_col, set_num_trees, get_features_col}

-- A whole number that is at most `bound`.
abbrev pub IsAtMost : ℤ → ℕ → Type 0
IsAtMost (pos n) bound = n ≤ bound
IsAtMost (negsuc n) bound = Unit

module _ {F : Type 0} {P : SparkParams F} (C : CumlClass F) where
  stored-spark :
      (k : String) (r : Result P.State) (s : Instance P)
      → get C.param_mapping k ≡ none
      → (v : Value F)
      → (continue
          (continue (stored r s).0 (λ _. set_cuml_param C k v false) (stored r s).1).0
          (λ _. return tt)
          (continue (stored r s).0 (λ _. set_cuml_param C k v false) (stored r s).1).1).0
        ≡ ok tt
      → r
        ≡ ok
            (continue
              (continue (stored r s).0 (λ _. set_cuml_param C k v false) (stored r s).1).0
              (λ _. return tt)
              (continue (stored r s).0 (λ _. set_cuml_param C k v false) (stored r s).1).1).1.spark
  unfolding set_cuml_param
  stored-spark k (ok spark) s e v h = rw (e, set_cuml_param) refl
  stored-spark k (err x) s e v h = cc

  -- Setting one Spark param that the class does not map is setting it in Spark.
  set_one-spark :
      (k : String) (v : Value F) (s : Instance P)
      → P.has_param s.spark k ≡ true
      → get C.param_mapping k ≡ none
      → (set_one C k v s).0 ≡ ok tt
      → P.set s.spark k v ≡ ok (set_one C k v s).1.spark
  unfolding set_one set_params set_each set_param
  set_one-spark k v s p e h = elim (Bool-cases (sets_both_sides C.param_mapping ((k, v) ∷ []))) [
    | inl b ↦ cc (rw b at h)
    | inr b ↦ rw (b, p) (stored-spark k (P.set s.spark k v) s e v (rw (b, p) at h))
  ]

  module _ (L : IsLawful P) (s : Instance P) where
    -- Where the class has the param for many feature columns, setting it to a list of names is read
    -- back as the list, through the param's converter, whatever was set before.
    pub get_features_col-set_many :
        (names : List String)
        → P.has_param s.spark "featuresCols" ≡ true
        → get C.param_mapping "featuresCols" ≡ none
        → (set_features_col C (strs names) s).0 ≡ ok tt
        → get_features_col P (set_features_col C (strs names) s).1.spark
          ≡ P.convert "featuresCols" (strs names)
    unfolding set_features_col get_features_col
    get_features_col-set_many names p e h =
        let done = set_one-spark "featuresCols" (strs names) s p e h in
        rw
          (
            L.is_defined-set s.spark _ "featuresCols" "featuresCols" (strs names) done,
            L.get-set s.spark _ "featuresCols" "featuresCols" (strs names) done,
          )
          refl

    -- Once the param for many feature columns is defined, setting a single feature column has no
    -- effect on the feature columns that are read back.
    pub get_features_col-set_single :
        (c : String)
        → P.has_param s.spark "featuresCol" ≡ true
        → get C.param_mapping "featuresCol" ≡ none
        → P.is_defined s.spark "featuresCols" ≡ true
        → (set_features_col C (str c) s).0 ≡ ok tt
        → get_features_col P (set_features_col C (str c) s).1.spark ≡ get_features_col P s.spark
    unfolding set_features_col get_features_col
    get_features_col-set_single c p e d h =
        let done = set_one-spark "featuresCol" (str c) s p e h in
        rw
          (
            L.is_defined-set s.spark _ "featuresCol" "featuresCols" (str c) done,
            L.get-set s.spark _ "featuresCol" "featuresCols" (str c) done,
            d,
          )
          refl

module _ {F : Type 0} {P : SparkParams F} (L : IsLawful P) where
  -- `setNumTrees` of the random forest classifier changes what `getNumTrees` reads, and leaves the
  -- parameters that cuML trains with as they were, `n_estimators` among them.
  pub set_num_trees-unsynced :
      (v : Value F) (s : Instance P)
      → (set_num_trees v s).0 ≡ ok tt
      → (P.get (set_num_trees v s).1.spark "numTrees" ≡ P.convert "numTrees" v)
        × ((set_num_trees v s).1.cuml ≡ s.cuml)
  unfolding set_num_trees set_spark
  set_num_trees-unsynced v s = stored_num_trees (P.set s.spark "numTrees" v) refl
    where
      stored_num_trees :
          (r : Result P.State)
          → P.set s.spark "numTrees" v ≡ r
          → (stored r s).0 ≡ ok tt
          → (P.get (stored r s).1.spark "numTrees" ≡ P.convert "numTrees" v)
            × ((stored r s).1.cuml ≡ s.cuml)
      stored_num_trees (ok spark) e h = (L.get-set s.spark spark "numTrees" "numTrees" v e, refl)
      stored_num_trees (err x) e h = cc
