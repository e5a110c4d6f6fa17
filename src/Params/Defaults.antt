-- ===== src/Params/Defaults.antt =====
-- `initialize_cuml_params` starts the cuML params from the Spark defaults.
use spark_rapids_ml.Base.{
  String, ◌≡◌, refl, ◌∙◌, ◌≢◌, Bool, true, false, Option, none, some, [], ◌∷◌, str_eq, eq_refl, inl,
  inr, Option-cases, Bool-cases,
}
use spark_rapids_ml.Py.{Result, ok, err, continue, Exec}
use spark_rapids_ml.Py.Dict.{get, get-put, NodupKeys, str_eq-ne, get-cons_cases, none-ne-some}
use spark_rapids_ml.Py.Value.{Value}
use spark_rapids_ml.Params.Spark.{SparkParams, IsLawful}
use spark_rapids_ml.Params.Class.{Mapping, CumlClass, distinct_targets, get-injective}
use spark_rapids_ml.Params.Values.{
  Instance, translate, store, to_target, set_cuml_value, set_cuml_param,
}
use spark_rapids_ml.Params.Lifecycle.{
  read, initialize_param, initialize_each, initialize_cuml_params,
}
use spark_rapids_ml.Params.Keeps.{
  get-cons_ne, Keeps, Keeps-refl, continue-Keeps, set_cuml_param-Keeps,
}

module _ {F : Type 0} {P : SparkParams F} where
  store-spark :
      (c : String) (r : Result (Value F)) (s : Instance P) → (store c r s).1.spark ≡ s.spark
  store-spark c (ok w) s = refl
  store-spark c (err e) s = refl

  target-spark :
      (C : CumlClass F) (t : Option String) (v : Value F) (b : Bool) (s : Instance P)
      → (to_target C t v b s).1.spark ≡ s.spark
  unfolding set_cuml_value
  target-spark C none v true s = refl
  target-spark C none v false s = refl
  target-spark C (some c) v b s = elim (Bool-cases (str_eq c "")) [
    | inl e ↦ rw e
    | inr e ↦ rw e (store-spark c (translate C c v) s)
  ]

  pub set_cuml_param-spark :
      (C : CumlClass F) (k : String) (v : Value F) (b : Bool) (s : Instance P)
      → (set_cuml_param C k v b s).1.spark ≡ s.spark
  unfolding set_cuml_param
  set_cuml_param-spark C k v b s = elim (Option-cases (get C.param_mapping k)) [
    | inl e ↦ rw (e, set_cuml_param)
    | inr (t, e) ↦ rw (e, set_cuml_param) (target-spark C t v b s)
  ]

  read-spark :
      (C : CumlClass F) (k : String) (r : Result (Value F)) (s : Instance P)
      → (read r (λ v. set_cuml_param C k v true) s).1.spark ≡ s.spark
  read-spark C k (ok v) s = set_cuml_param-spark C k v true s
  read-spark C k (err e) s = refl

  initialize_param-spark :
      (C : CumlClass F) (k : String) (s : Instance P) → (initialize_param C k s).1.spark ≡ s.spark
  unfolding initialize_param
  initialize_param-spark C k s = elim (Bool-cases (P.has_default s.spark k)) [
    | inl e ↦ rw e (read-spark C k (P.get s.spark k) s)
    | inr e ↦ rw e
  ]

  continue-spark :
      (C : CumlClass F) (f : Exec (Instance P) Unit) (r : Result Unit) (s : Instance P)
      → ((t : Instance P) → (f t).1.spark ≡ t.spark)
      → (continue r (λ _. f) s).1.spark ≡ s.spark
  continue-spark C f (ok tt) s h = h s
  continue-spark C f (err e) s h = refl

  initialize_each-spark :
      (C : CumlClass F) (m : Mapping) (s : Instance P) → (initialize_each C m s).1.spark ≡ s.spark
  unfolding initialize_each
  initialize_each-spark C [] s = refl
  initialize_each-spark C ((k, t) ∷ m) s =
      continue-spark C (initialize_each C m) (initialize_param C k s).0 (initialize_param C k s).1
        (initialize_each-spark C m)
      ∙ initialize_param-spark C k s

  pub initialize-spark :
      (C : CumlClass F) (s : Instance P) → (initialize_cuml_params C s).1.spark ≡ s.spark
  unfolding initialize_cuml_params
  initialize-spark C s = initialize_each-spark C C.param_mapping _

  -- The cuML parameter `c` holds the translation of `v`.
  pub record Holds (C : CumlClass F) (c : String) (v : Value F) (s : Instance P) : Type 0 where
    pub written : Value F
    pub translated : translate C c v ≡ ok written
    pub cuml_side : get s.cuml c ≡ some written

  store-Holds :
      (C : CumlClass F) (c : String) (v : Value F) (r : Result (Value F)) (s : Instance P)
      → translate C c v ≡ r
      → (store c r s).0 ≡ ok tt
      → Holds C c v (store c r s).1
  store-Holds C c v (ok w) s t h = record {
    written = w;
    translated = t;
    cuml_side = get-put s.cuml c c w ∙ rw eq_refl;
  }
  store-Holds C c v (err e) s t h = cc

  set_cuml_param-Holds :
      (C : CumlClass F) (k c : String) (v : Value F) (s : Instance P)
      → get C.param_mapping k ≡ some (some c)
      → c ≢ ""
      → (set_cuml_param C k v true s).0 ≡ ok tt
      → Holds C c v (set_cuml_param C k v true s).1
  unfolding set_cuml_param
  set_cuml_param-Holds C k c v s e n =
      rw (e, set_cuml_param, str_eq-ne c "" n) (store-Holds C c v (translate C c v) s refl)

  initialize_param-Holds :
      (C : CumlClass F) (k c : String) (v : Value F) (s : Instance P)
      → P.has_default s.spark k ≡ true
      → P.get s.spark k ≡ ok v
      → get C.param_mapping k ≡ some (some c)
      → c ≢ ""
      → (initialize_param C k s).0 ≡ ok tt
      → Holds C c v (initialize_param C k s).1
  unfolding initialize_param
  initialize_param-Holds C k c v s d g e n = rw (d, g) (set_cuml_param-Holds C k c v s e n)

module _ {F : Type 0} {P : SparkParams F} (L : IsLawful P) (C : CumlClass F) (j c : String) where
  read-Keeps :
      (k : String) (r : Result (Value F)) (s : Instance P)
      → get C.param_mapping k ≢ some (some c)
      → Keeps L j c s (read r (λ v. set_cuml_param C k v true) s).1
  read-Keeps k (ok v) s n = set_cuml_param-Keeps L C k j c v true s n
  read-Keeps k (err e) s n = Keeps-refl L

  initialize_param-Keeps :
      (k : String) (s : Instance P)
      → get C.param_mapping k ≢ some (some c)
      → Keeps L j c s (initialize_param C k s).1
  unfolding initialize_param
  initialize_param-Keeps k s n = elim (Bool-cases (P.has_default s.spark k)) [
    | inl e ↦ rw e (read-Keeps k (P.get s.spark k) s n)
    | inr e ↦ rw e (Keeps-refl L)
  ]

  -- Params whose name is not a key of `m` keep their cuML parameters through the loop over `m`.
  initialize_each-Keeps :
      (m : Mapping) (s : Instance P)
      → distinct_targets C.param_mapping ≡ true
      → c ≢ ""
      → get C.param_mapping j ≡ some (some c)
      → get m j ≡ none
      → Keeps L j c s (initialize_each C m s).1
  unfolding initialize_each
  initialize_each-Keeps [] s d n e g = Keeps-refl L
  initialize_each-Keeps ((k, t) ∷ m) s d n e g =
      let kj = get-cons_ne k j t m g in
      continue-Keeps L (initialize_param C k s).0 (initialize_each C m)
        (initialize_param-Keeps k s (λ q. kj.0 (get-injective C.param_mapping k j c d q e n)))
        (initialize_each-Keeps m _ d n e kj.1)

  step-Holds :
      (m : Mapping) (v : Value F) (r : Result Unit) (s : Instance P)
      → distinct_targets C.param_mapping ≡ true
      → c ≢ ""
      → get C.param_mapping j ≡ some (some c)
      → get m j ≡ none
      → (r ≡ ok tt → Holds C c v s)
      → (continue r (λ _. initialize_each C m) s).0 ≡ ok tt
      → Holds C c v (continue r (λ _. initialize_each C m) s).1
  step-Holds m v (ok tt) s d n e g f h =
      let kept = (initialize_each-Keeps m s d n e g).cuml_side in
      let held = f refl in
      record {
        written = held.written;
        translated = held.translated;
        cuml_side = kept ∙ held.cuml_side;
      }
  step-Holds m v (err x) s d n e g f h = cc

  skip-Holds :
      (m : Mapping) (v : Value F) (r : Result Unit) (s : Instance P)
      → (continue r (λ _. initialize_each C m) s).0 ≡ ok tt
      → ((initialize_each C m s).0 ≡ ok tt → Holds C c v (initialize_each C m s).1)
      → Holds C c v (continue r (λ _. initialize_each C m) s).1
  skip-Holds m v (ok tt) s h ih = ih h
  skip-Holds m v (err x) s h ih = cc

  initialize_each-Holds :
      (m : Mapping) (t : Option String) (v : Value F) (s : Instance P)
      → distinct_targets C.param_mapping ≡ true
      → c ≢ ""
      → get C.param_mapping j ≡ some (some c)
      → P.has_default s.spark j ≡ true
      → P.get s.spark j ≡ ok v
      → NodupKeys m
      → get m j ≡ some t
      → (initialize_each C m s).0 ≡ ok tt
      → Holds C c v (initialize_each C m s).1
  unfolding initialize_each
  initialize_each-Holds [] t v s d n e p q u g h = absurd (none-ne-some j t g)
  initialize_each-Holds ((k, i) ∷ m) t v s d n e p q (fresh, u) g h =
      elim (get-cons_cases k j i t m g) [
        | inl (kj, it) ↦ rw kj (
            step-Holds m v (initialize_param C j s).0 (initialize_param C j s).1 d n e
              (rw kj at fresh) (initialize_param-Holds C j c v s p q e n) (rw kj at h))
        | inr (kj, g') ↦
            let same = initialize_param-spark C k s in
            skip-Holds m v (initialize_param C k s).0 (initialize_param C k s).1 h
              (initialize_each-Holds m t v _ d n e (rw same p) (rw same q) u g')
      ]

  -- If `initialize_cuml_params` returns, a cuML parameter that a Spark param with a default is
  -- mapped to holds the translation of that param's value, whatever cuML's own default is.
  -- Assumed: the Spark names of the mapping and the cuML names that they are mapped to are distinct.
  pub initialize-Holds :
      (v : Value F) (s : Instance P)
      → NodupKeys C.param_mapping
      → distinct_targets C.param_mapping ≡ true
      → get C.param_mapping j ≡ some (some c)
      → c ≢ ""
      → P.has_default s.spark j ≡ true
      → P.get s.spark j ≡ ok v
      → (initialize_cuml_params C s).0 ≡ ok tt
      → Holds C c v (initialize_cuml_params C s).1
  unfolding initialize_cuml_params
  initialize-Holds v s u d e n p q h =
      initialize_each-Holds C.param_mapping (some c) v _ d n e p q u e h
