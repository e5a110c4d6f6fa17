-- ===== src/Params/Sync.antt =====
-- `set_params` keeps the two sides of a param together: what it sets on the Spark side is what
-- cuML is given, through the mappings of the class.
use spark_rapids_ml.Base.{
  String, ◌≡◌, refl, ◌∙◌, ◌≢◌, ◌⊎◌, true, false, none, some, [], ◌∷◌, arith, eq_iff, eq_refl,
  Bool-cases, inl, inr,
}
use spark_rapids_ml.Py.{Exc, Result, ok, err, continue}
use spark_rapids_ml.Py.Dict.{Dict, get, get-put, NodupKeys, str_eq-ne, get-cons_cases, none-ne-some}
use spark_rapids_ml.Py.Value.{Value}
use spark_rapids_ml.Params.Spark.{SparkParams, IsLawful}
use spark_rapids_ml.Params.Class.{Mapping, CumlClass, distinct_targets, get-injective}
use spark_rapids_ml.Params.Values.{Instance, translate, store, set_cuml_param}
use spark_rapids_ml.Params.Keeps.{Keeps, set_param-Keeps, set_each-Keeps}
use spark_rapids_ml.Params.Set.{sets_both_sides, stored, set_param, set_each, set_params}

-- Where the check for aliases passes, a keyword's target is the keyword itself or is not given.
target_absent {ℓ} :
    {V : Type ℓ} (m : Mapping) (kwargs : Dict V) (k c : String)
    → sets_both_sides m kwargs ≡ false
    → get m k ≡ some (some c)
    → get kwargs k ≢ none
    → (k ≡ c) ⊎ (get kwargs c ≡ none)
unfolding sets_both_sides get
target_absent [] kwargs k c h e g = cc
target_absent ((i, none) ∷ m) kwargs k c h e g =
    ground (arith, eq_iff i k, target_absent m kwargs k c)
target_absent ((i, some d) ∷ m) kwargs k c h e g =
    ground (arith, eq_iff i k, eq_iff i d, target_absent m kwargs k c)

tail_absent {ℓ} :
    {V : Type ℓ} (k c j : String) (w : V) (d : Dict V)
    → (j ≡ c) ⊎ (get ((k, w) ∷ d) c ≡ none)
    → (j ≡ c) ⊎ (get d c ≡ none)
unfolding get
tail_absent k c j w d h = ground (arith, eq_iff k c)

head_ne {ℓ} :
    {V : Type ℓ} (k c j : String) (w : V) (d : Dict V)
    → k ≢ j
    → (j ≡ c) ⊎ (get ((k, w) ∷ d) c ≡ none)
    → k ≢ c
unfolding get
head_ne k c j w d n h = ground (arith, eq_iff k c)

raised {ℓ} : {A : Type ℓ} {x : Exc} {a : A} → err x ≢ ok a
raised h = cc

module _ {F : Type 0} {P : SparkParams F} where
  -- The Spark param `j`, given `v`, and its cuML parameter `c` agree.
  pub record Reflects (C : CumlClass F) (j c : String) (v : Value F) (s : Instance P) : Type 0 where
    pub written : Value F
    pub translated : translate C c v ≡ ok written
    pub cuml_side : get s.cuml c ≡ some written
    pub spark_side : P.get s.spark j ≡ P.convert j v

module _ {F : Type 0} {P : SparkParams F} (L : IsLawful P) where
  Keeps-Reflects :
      {C : CumlClass F} {j c : String} {v : Value F} {s s' : Instance P}
      → Keeps L j c s s'
      → Reflects C j c v s
      → Reflects C j c v s'
  Keeps-Reflects k r = record {
    written = r.written;
    translated = r.translated;
    cuml_side = k.cuml_side ∙ r.cuml_side;
    spark_side = k.spark_side ∙ r.spark_side;
  }

  module _ (C : CumlClass F) (j c : String) (v : Value F) where
    store-Reflects :
        (r : Result (Value F)) (s : Instance P)
        → translate C c v ≡ r
        → P.get s.spark j ≡ P.convert j v
        → (store c r s).0 ≡ ok tt
        → Reflects C j c v (store c r s).1
    store-Reflects (ok w) s t g h = record {
      written = w;
      translated = t;
      cuml_side = get-put s.cuml c c w ∙ rw eq_refl;
      spark_side = g;
    }
    store-Reflects (err e) s t g h = cc

    set_cuml_param-Reflects :
        (s : Instance P)
        → P.get s.spark j ≡ P.convert j v
        → get C.param_mapping j ≡ some (some c)
        → c ≢ ""
        → (set_cuml_param C j v false s).0 ≡ ok tt
        → Reflects C j c v (set_cuml_param C j v false s).1
    unfolding set_cuml_param
    set_cuml_param-Reflects s g e n =
        rw (e, set_cuml_param, str_eq-ne c "" n) (store-Reflects (translate C c v) s refl g)

    stored-Reflects :
        (r : Result P.State) (s : Instance P)
        → P.set s.spark j v ≡ r
        → get C.param_mapping j ≡ some (some c)
        → c ≢ ""
        → (continue (stored r s).0 (λ _. set_cuml_param C j v false) (stored r s).1).0 ≡ ok tt
        → Reflects C j c v
            (continue (stored r s).0 (λ _. set_cuml_param C j v false) (stored r s).1).1
    stored-Reflects (ok spark) s p e n h =
        set_cuml_param-Reflects _ (L.get-set s.spark spark j j v p ∙ rw eq_refl) e n h
    stored-Reflects (err x) s p e n h = cc

    set_param-Reflects :
        (s : Instance P)
        → P.has_param s.spark j ≡ true
        → get C.param_mapping j ≡ some (some c)
        → c ≢ ""
        → (set_param C j v s).0 ≡ ok tt
        → Reflects C j c v (set_param C j v s).1
    unfolding set_param
    set_param-Reflects s p e n = rw p (stored-Reflects (P.set s.spark j v) s refl e n)

    step-Reflects :
        (kwargs : Dict (Value F)) (r : Result Unit) (s : Instance P)
        → NodupKeys C.param_mapping
        → distinct_targets C.param_mapping ≡ true
        → c ≢ ""
        → get C.param_mapping j ≡ some (some c)
        → get kwargs j ≡ none
        → (j ≡ c) ⊎ (get kwargs c ≡ none)
        → (r ≡ ok tt → Reflects C j c v s)
        → (continue r (λ _. set_each C kwargs) s).0 ≡ ok tt
        → Reflects C j c v (continue r (λ _. set_each C kwargs) s).1
    step-Reflects kwargs (ok tt) s u d n e g a f h =
        Keeps-Reflects (set_each-Keeps L C kwargs j c s u d n e g (ground arith)) (f refl)
    step-Reflects kwargs (err x) s u d n e g a f h = cc

    skip-Reflects :
        (k : String) (w : Value F) (kwargs : Dict (Value F)) (s : Instance P) (r : Result Unit)
        (t : Instance P)
        → Keeps L j c s t
        → (continue r (λ _. set_each C kwargs) t).0 ≡ ok tt
        → ((set_each C kwargs t).0 ≡ ok tt → Reflects C j c v (set_each C kwargs t).1)
        → Reflects C j c v (continue r (λ _. set_each C kwargs) t).1
    skip-Reflects k w kwargs s (ok tt) t keep h ih = ih h
    skip-Reflects k w kwargs s (err x) t keep h ih = cc

    -- The keywords before `j` leave its params alone, `j` sets them, and the rest leave them alone.
    set_each-Reflects :
        (kwargs : Dict (Value F)) (s : Instance P)
        → NodupKeys C.param_mapping
        → distinct_targets C.param_mapping ≡ true
        → c ≢ ""
        → get C.param_mapping j ≡ some (some c)
        → P.has_param s.spark j ≡ true
        → NodupKeys kwargs
        → get kwargs j ≡ some v
        → (j ≡ c) ⊎ (get kwargs c ≡ none)
        → (set_each C kwargs s).0 ≡ ok tt
        → Reflects C j c v (set_each C kwargs s).1
    unfolding set_each
    set_each-Reflects [] s u d n e p nk g a h = absurd (none-ne-some j v g)
    set_each-Reflects ((k, w) ∷ kwargs) s u d n e p (fresh, nk) g a h =
        elim (get-cons_cases k j w v kwargs g) [
          | inl (kj, wv) ↦
              rw (kj, wv)
                (step-Reflects kwargs (set_param C j v s).0 (set_param C j v s).1 u d n e
                  (rw kj at fresh) (tail_absent k c j w kwargs a) (set_param-Reflects s p e n)
                  (rw (kj, wv) at h))
          | inr (kj, g') ↦
              let keep =
                set_param-Keeps L C k j c w s u kj (head_ne k c j w kwargs kj a)
                  (λ q. kj (get-injective C.param_mapping k j c d q e n)) e in
              skip-Reflects k w kwargs s (set_param C k w s).0 (set_param C k w s).1 keep h (
                set_each-Reflects kwargs _ u d n e (keep.declared ∙ p) nk g'
                  (tail_absent k c j w kwargs a))
        ]

  -- If `set_params` returns, and a keyword is a Spark param that the class maps to a cuML
  -- parameter, then the cuML parameter holds the value that the class translates the keyword's
  -- value to, and the Spark param reads back as the keyword's value through its converter. The
  -- keywords may come in any order, with any others. Assumed: the keywords are distinct, as are the
  -- Spark names of the mapping and the cuML names that they are mapped to.
  pub set_params-Reflects :
      (C : CumlClass F) (kwargs : Dict (Value F)) (j c : String) (v : Value F) (s : Instance P)
      → NodupKeys C.param_mapping
      → distinct_targets C.param_mapping ≡ true
      → NodupKeys kwargs
      → get kwargs j ≡ some v
      → P.has_param s.spark j ≡ true
      → get C.param_mapping j ≡ some (some c)
      → c ≢ ""
      → (set_params C kwargs s).0 ≡ ok tt
      → Reflects C j c v (set_params C kwargs s).1
  unfolding set_params
  set_params-Reflects C kwargs j c v s u d nk g p e n h =
      elim (Bool-cases (sets_both_sides C.param_mapping kwargs)) [
        | inl b ↦ absurd (raised (rw b at h))
        | inr b ↦ rw b (
            set_each-Reflects C j c v kwargs s u d n e p nk g
              (target_absent C.param_mapping kwargs j c b e (λ q. cc)) (rw b at h))
      ]
