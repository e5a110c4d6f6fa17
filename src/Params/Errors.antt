-- ===== src/Params/Errors.antt =====
-- What `set_params` refuses.
use spark_rapids_ml.Base.{
  String, ◌≡◌, refl, ◌∙◌, ap, ◌≢◌, ◌⊎◌, inl, inr, true, false, none, some, [], ◌∷◌, arith, str_eq,
  eq_iff, Bool-cases,
}
use spark_rapids_ml.Py.{Result, ok, err, value_error, type_error, Exec, continue}
use spark_rapids_ml.Py.Dict.{Dict, get, has, get-cons_cases, none-ne-some}
use spark_rapids_ml.Py.Value.{Value}
use spark_rapids_ml.Params.Spark.{SparkParams, IsLawful}
use spark_rapids_ml.Params.Class.{Mapping, CumlClass}
use spark_rapids_ml.Params.Values.{Instance, set_cuml_param}
use spark_rapids_ml.Params.Set.{
  sets_both_sides, is_target, stored, stored_or_skipped, set_spark, try_set_spark, set_matching,
  set_param, set_each, set_params,
}
use spark_rapids_ml.Params.Defaults.{set_cuml_param-spark}

both_sides_found {ℓ} :
    {V : Type ℓ} (m : Mapping) (kwargs : Dict V) (k c : String)
    → get m k ≡ some (some c)
    → k ≢ c
    → has kwargs k ≡ true
    → has kwargs c ≡ true
    → sets_both_sides m kwargs ≡ true
unfolding sets_both_sides get
both_sides_found [] kwargs k c e n p q = cc
both_sides_found ((i, none) ∷ m) kwargs k c e n p q =
    ground (arith, eq_iff i k, both_sides_found m kwargs k c)
both_sides_found ((i, some d) ∷ m) kwargs k c e n p q =
    ground (arith, eq_iff i k, eq_iff i d, both_sides_found m kwargs k c)

-- If a Spark param and the cuML parameter of another name that it is mapped to are both among the
-- keywords, `set_params` raises `ValueError` and has changed nothing.
pub set_params-both_sides :
    {F : Type 0} {P : SparkParams F} (C : CumlClass F) (kwargs : Dict (Value F)) (k c : String)
    (s : Instance P)
    → get C.param_mapping k ≡ some (some c)
    → k ≢ c
    → has kwargs k ≡ true
    → has kwargs c ≡ true
    → set_params C kwargs s ≡ (err value_error, s)
unfolding set_params
set_params-both_sides C kwargs k c s e n p q =
    rw (both_sides_found C.param_mapping kwargs k c e n p q) refl

module _ {F : Type 0} {P : SparkParams F} (L : IsLawful P) (j : String) where
  -- A step that leaves the declared params alone.
  abbrev Declares : Instance P → Instance P → Type 0
  Declares s s' = P.has_param s'.spark j ≡ P.has_param s.spark j

  stored-Declares :
      (k : String) (v : Value F) (r : Result P.State) (s : Instance P)
      → P.set s.spark k v ≡ r
      → Declares s (stored r s).1
  stored-Declares k v (ok spark) s e = L.has_param-set s.spark spark k j v e
  stored-Declares k v (err x) s e = refl

  skipped-Declares :
      (k : String) (v : Value F) (r : Result P.State) (s : Instance P)
      → P.set s.spark k v ≡ r
      → Declares s (stored_or_skipped r s).1
  skipped-Declares k v (ok spark) s e = L.has_param-set s.spark spark k j v e
  skipped-Declares k v (err type_error) s e = refl
  skipped-Declares k v (err _) s e = refl

  continue-Declares :
      (r : Result Unit) (n : Exec (Instance P) Unit) (s t : Instance P)
      → Declares s t
      → Declares t (n t).1
      → Declares s (continue r (λ _. n) t).1
  continue-Declares (ok _) n s t h k = k ∙ h
  continue-Declares (err _) n s t h k = h

  set_matching-Declares :
      (m : Mapping) (k : String) (v : Value F) (s : Instance P)
      → Declares s (set_matching m k v s).1
  unfolding set_matching
  set_matching-Declares [] k v s = refl
  set_matching-Declares ((i, t) ∷ m) k v s = elim (Bool-cases (is_target k t)) [
    | inl e ↦ rw e (
        continue-Declares (try_set_spark i v s).0 (set_matching m k v) s _
          (skipped-Declares i v (P.set s.spark i v) s refl) (set_matching-Declares m k v _))
    | inr e ↦ rw e (set_matching-Declares m k v s)
  ]

  set_param-Declares :
      (C : CumlClass F) (k : String) (v : Value F) (s : Instance P)
      → Declares s (set_param C k v s).1
  unfolding set_param
  set_param-Declares C k v s = elim (Bool-cases (P.has_param s.spark k)) [
    | inl p ↦ rw p (
        continue-Declares (set_spark k v s).0 (set_cuml_param C k v false) s _
          (stored-Declares k v (P.set s.spark k v) s refl)
          (ap (λ t. P.has_param t j) (set_cuml_param-spark C k v false _)))
    | inr p ↦ rw p (elim (Bool-cases (has s.cuml k)) [
      | inl q ↦ rw q (set_matching-Declares C.param_mapping k v _)
      | inr q ↦
          rw q
            (elim (Bool-cases (str_eq k "num_workers")) [ inl r ↦ rw r refl | inr r ↦ rw r refl ])
    ])
  ]

  refuse-stored :
      (C : CumlClass F) (v : Value F) (r : Result P.State) (s : Instance P)
      → get C.param_mapping j ≡ some none
      → (continue (stored r s).0 (λ _. set_cuml_param C j v false) (stored r s).1).0 ≢ ok tt
  unfolding set_cuml_param
  refuse-stored C v (ok spark) s e h = cc (rw (e, set_cuml_param) at h)
  refuse-stored C v (err x) s e h = cc

  set_param-refused :
      (C : CumlClass F) (v : Value F) (s : Instance P)
      → P.has_param s.spark j ≡ true
      → get C.param_mapping j ≡ some none
      → (set_param C j v s).0 ≢ ok tt
  unfolding set_param
  set_param-refused C v s p e = rw p (refuse-stored C v (P.set s.spark j v) s e)

  continue-refused :
      (r : Result Unit) (n : Exec (Instance P) Unit) (t : Instance P)
      → (r ≡ ok tt → ⊥) ⊎ ((n t).0 ≢ ok tt)
      → (continue r (λ _. n) t).0 ≢ ok tt
  continue-refused (ok tt) n t (inl f) h = f refl
  continue-refused (ok tt) n t (inr f) h = f h
  continue-refused (err x) n t f h = cc

  set_each-refused :
      (C : CumlClass F) (kwargs : Dict (Value F)) (v : Value F) (s : Instance P)
      → P.has_param s.spark j ≡ true
      → get C.param_mapping j ≡ some none
      → get kwargs j ≡ some v
      → (set_each C kwargs s).0 ≢ ok tt
  unfolding set_each
  set_each-refused C [] v s p e g = absurd (none-ne-some j v g)
  set_each-refused C ((k, w) ∷ kwargs) v s p e g = elim (get-cons_cases k j w v kwargs g) [
    | inl (kj, wv) ↦
        continue-refused (set_param C k w s).0 (set_each C kwargs) (set_param C k w s).1
          (inl (rw kj (set_param-refused C w s p e)))
    | inr (kj, g') ↦
        continue-refused (set_param C k w s).0 (set_each C kwargs) (set_param C k w s).1
          (inr (set_each-refused C kwargs v _ (set_param-Declares C k w s ∙ p) e g'))
  ]

  -- A Spark param that the class maps to None cannot be set: with it among the keywords,
  -- `set_params` does not return.
  pub set_params-refused :
      (C : CumlClass F) (kwargs : Dict (Value F)) (v : Value F) (s : Instance P)
      → P.has_param s.spark j ≡ true
      → get C.param_mapping j ≡ some none
      → get kwargs j ≡ some v
      → (set_params C kwargs s).0 ≢ ok tt
  unfolding set_params
  set_params-refused C kwargs v s p e g =
      elim (Bool-cases (sets_both_sides C.param_mapping kwargs)) [
        | inl b ↦ rw b (λ h. cc h)
        | inr b ↦ rw b (set_each-refused C kwargs v s p e g)
      ]
