-- ===== src/Params/Keeps.antt =====
-- What the steps of `set_params` leave alone.
use spark_rapids_ml.Base.{
  String, ◌≡◌, refl, ◌∙◌, ap, ◌≢◌, inl, inr, Bool, true, false, Option, none, some, [], ◌∷◌, arith,
  str_eq, eq_iff, Bool-cases, Option-cases,
}
use spark_rapids_ml.Py.{Result, ok, err, type_error, Exec, continue}
use spark_rapids_ml.Py.Dict.{Dict, get, has, put, get-put, NodupKeys}
use spark_rapids_ml.Py.Value.{Value}
use spark_rapids_ml.Params.Spark.{SparkParams, IsLawful}
use spark_rapids_ml.Params.Class.{Mapping, CumlClass, distinct_targets, get-injective}
use spark_rapids_ml.Params.Values.{
  Instance, translate, store, to_target, set_cuml_value, set_cuml_param,
}
use spark_rapids_ml.Params.Set.{
  is_target, stored, stored_or_skipped, set_spark, try_set_spark, set_matching, set_param, set_each,
}

entry-ne-head :
    (i j k : String) (target : Option String) (m : Mapping)
    → is_target k target ≡ true
    → get ((i, target) ∷ m) j ≢ some (some k)
    → i ≢ j
unfolding get
entry-ne-head i j k none m e n = cc
entry-ne-head i j k (some d) m e n = ground (arith, eq_iff i j, eq_iff k d)

entry-ne-tail :
    (i j k : String) (target : Option String) (m : Mapping)
    → get m i ≡ none
    → get ((i, target) ∷ m) j ≢ some (some k)
    → get m j ≢ some (some k)
unfolding get
entry-ne-tail i j k target m fresh n = ground (arith, eq_iff i j)

pub get-cons_ne {ℓ} :
    {V : Type ℓ} (i j : String) (v : V) (d : Dict V)
    → get ((i, v) ∷ d) j ≡ none
    → (i ≢ j) × (get d j ≡ none)
unfolding get
get-cons_ne i j v d h = ground (arith, eq_iff i j)

module _ {F : Type 0} {P : SparkParams F} (L : IsLawful P) where
  -- What a step leaves alone: the declared params, the Spark param `j`, the cuML parameter `c`.
  pub record Keeps (j c : String) (s s' : Instance P) : Type 0 where
    pub declared : P.has_param s'.spark j ≡ P.has_param s.spark j
    pub spark_side : P.get s'.spark j ≡ P.get s.spark j
    pub cuml_side : get s'.cuml c ≡ get s.cuml c

  pub Keeps-refl : {j c : String} {s : Instance P} → Keeps j c s s
  Keeps-refl = record { declared = refl; spark_side = refl; cuml_side = refl }

  pub Keeps-trans :
      {j c : String} {s t u : Instance P} → Keeps j c s t → Keeps j c t u → Keeps j c s u
  Keeps-trans h k = record {
    declared = k.declared ∙ h.declared;
    spark_side = k.spark_side ∙ h.spark_side;
    cuml_side = k.cuml_side ∙ h.cuml_side;
  }

  module _ (k j c : String) (v : Value F) (s : Instance P) (n : k ≢ j) where
    stored-Keeps :
        (spark : P.State) → P.set s.spark k v ≡ ok spark → Keeps j c s (record s { spark = spark })
    stored-Keeps spark e = record {
      declared = L.has_param-set s.spark spark k j v e;
      spark_side = L.get-set s.spark spark k j v e ∙ ground (arith, eq_iff k j);
      cuml_side = refl;
    }

    set-Keeps : (r : Result P.State) → P.set s.spark k v ≡ r → Keeps j c s (stored r s).1
    set-Keeps (ok spark) e = stored-Keeps spark e
    set-Keeps (err _) e = Keeps-refl

    pub set_spark-Keeps : Keeps j c s (set_spark k v s).1
    unfolding set_spark
    set_spark-Keeps = set-Keeps (P.set s.spark k v) refl

    skipped-Keeps :
        (r : Result P.State) → P.set s.spark k v ≡ r → Keeps j c s (stored_or_skipped r s).1
    skipped-Keeps (ok spark) e = stored-Keeps spark e
    skipped-Keeps (err type_error) e = Keeps-refl
    skipped-Keeps (err _) e = Keeps-refl

    try_set_spark-Keeps : Keeps j c s (try_set_spark k v s).1
    unfolding try_set_spark
    try_set_spark-Keeps = skipped-Keeps (P.set s.spark k v) refl

  pub continue-Keeps :
      {j c : String} (r : Result Unit) (n : Exec (Instance P) Unit) {s t : Instance P}
      → Keeps j c s t
      → Keeps j c t (n t).1
      → Keeps j c s (continue r (λ _. n) t).1
  continue-Keeps (ok _) n h k = Keeps-trans h k
  continue-Keeps (err _) n h k = h

  -- The inner loop writes no cuML parameter, and only Spark params that are mapped to `k`.
  set_matching-Keeps :
      (m : Mapping) (k j c : String) (v : Value F) (s : Instance P)
      → NodupKeys m
      → get m j ≢ some (some k)
      → Keeps j c s (set_matching m k v s).1
  unfolding set_matching
  set_matching-Keeps [] k j c v s u n = Keeps-refl
  set_matching-Keeps ((i, target) ∷ m) k j c v s (fresh, u) n =
      elim (Bool-cases (is_target k target)) [
        | inl e ↦ rw e (
            continue-Keeps (try_set_spark i v s).0 (set_matching m k v)
              (try_set_spark-Keeps i j c v s (entry-ne-head i j k target m e n))
              (set_matching-Keeps m k j c v _ u (entry-ne-tail i j k target m fresh n)))
        | inr e ↦ rw e (set_matching-Keeps m k j c v s u (entry-ne-tail i j k target m fresh n))
      ]

  pub store-Keeps :
      (d j c : String) (r : Result (Value F)) (s : Instance P) → d ≢ c → Keeps j c s (store d r s).1
  store-Keeps d j c (ok w) s n = record {
    declared = refl;
    spark_side = refl;
    cuml_side = ground (arith, get-put s.cuml d c w, eq_iff d c);
  }
  store-Keeps d j c (err e) s n = Keeps-refl

  to_target-Keeps :
      (C : CumlClass F) (target : Option String) (j c : String) (v : Value F) (b : Bool)
      (s : Instance P)
      → target ≢ some c
      → Keeps j c s (to_target C target v b s).1
  unfolding set_cuml_value
  to_target-Keeps C none j c v true s n = Keeps-refl
  to_target-Keeps C none j c v false s n = Keeps-refl
  to_target-Keeps C (some d) j c v b s n = elim (Bool-cases (str_eq d "")) [
    | inl e ↦ rw e Keeps-refl
    | inr e ↦ rw e (store-Keeps d j c (translate C d v) s (λ p. n (ap some p)))
  ]

  pub set_cuml_param-Keeps :
      (C : CumlClass F) (k j c : String) (v : Value F) (b : Bool) (s : Instance P)
      → get C.param_mapping k ≢ some (some c)
      → Keeps j c s (set_cuml_param C k v b s).1
  unfolding set_cuml_param
  set_cuml_param-Keeps C k j c v b s n = elim (Option-cases (get C.param_mapping k)) [
    | inl e ↦ rw (e, set_cuml_param) Keeps-refl
    | inr (target, e) ↦
        rw (e, set_cuml_param) (to_target-Keeps C target j c v b s (λ p. n (e ∙ ap some p)))
  ]

  -- A keyword leaves the params of another keyword alone.
  pub set_param-Keeps :
      (C : CumlClass F) (k j c : String) (v : Value F) (s : Instance P)
      → NodupKeys C.param_mapping
      → k ≢ j
      → k ≢ c
      → get C.param_mapping k ≢ some (some c)
      → get C.param_mapping j ≡ some (some c)
      → Keeps j c s (set_param C k v s).1
  unfolding set_param
  set_param-Keeps C k j c v s u kj kc n e = elim (Bool-cases (P.has_param s.spark k)) [
    | inl p ↦ rw p (
        continue-Keeps (set_spark k v s).0 (set_cuml_param C k v false)
          (set_spark-Keeps k j c v s kj) (set_cuml_param-Keeps C k j c v false _ n))
    | inr p ↦ rw p (elim (Bool-cases (has s.cuml k)) [
      | inl q ↦ rw q (
          Keeps-trans {t = record s { cuml = put s.cuml k v }} (store-Keeps k j c (ok v) s kc)
            (set_matching-Keeps C.param_mapping k j c v _ u (λ p. kc (cc))))
      | inr q ↦ rw q (elim (Bool-cases (str_eq k "num_workers")) [
        | inl r ↦ rw r (record { declared = refl; spark_side = refl; cuml_side = refl })
        | inr r ↦ rw r Keeps-refl
      ])
    ])
  ]

  pub set_each-Keeps :
      (C : CumlClass F) (kwargs : Dict (Value F)) (j c : String) (s : Instance P)
      → NodupKeys C.param_mapping
      → distinct_targets C.param_mapping ≡ true
      → c ≢ ""
      → get C.param_mapping j ≡ some (some c)
      → get kwargs j ≡ none
      → get kwargs c ≡ none
      → Keeps j c s (set_each C kwargs s).1
  unfolding set_each
  set_each-Keeps C [] j c s u d n e gj gc = Keeps-refl
  set_each-Keeps C ((k, v) ∷ kwargs) j c s u d n e gj gc =
      let kj = get-cons_ne k j v kwargs gj in
      let kc = get-cons_ne k c v kwargs gc in
      continue-Keeps (set_param C k v s).0 (set_each C kwargs)
        (set_param-Keeps C k j c v s u kj.0 kc.0
          (λ p. kj.0 (get-injective C.param_mapping k j c d p e n)) e)
        (set_each-Keeps C kwargs j c _ u d n e kj.1 kc.1)
