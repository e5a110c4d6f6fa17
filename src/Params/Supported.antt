-- ===== src/Params/Supported.antt =====
-- What `_set_cuml_value` stores where a class restricts the values of a cuML parameter.
use spark_rapids_ml.Base.{
  String, ◌≡◌, refl, ◌∙◌, ap, ◌≢◌, ◌⊎◌, inl, inr, true, Option, none, some, [], ◌∷◌, arith, str_eq,
  eq_iff, eq_refl, Bool-cases,
}
use spark_rapids_ml.Py.{Result, ok, err}
use spark_rapids_ml.Py.Dict.{Dict, get, contains, get-put, str_eq-ne}
use spark_rapids_ml.Py.Value.{Value, str, strs}
use spark_rapids_ml.Params.Spark.{SparkParams}
use spark_rapids_ml.Params.Class.{CumlClass}
use spark_rapids_ml.Params.Values.{
  Instance, supported_values, mapped_value, supported_value, translate, store, set_cuml_value,
}

contains-supported_values :
    (m : Dict (Option String)) (k w : String)
    → get m k ≡ some (some w)
    → contains (supported_values m) w ≡ true
unfolding supported_values get
contains-supported_values [] k w h = cc
contains-supported_values ((i, none) ∷ m) k w h =
    ground (arith, eq_iff i k, contains-supported_values m k w)
contains-supported_values ((i, some x) ∷ m) k w h =
    ground (arith, eq_iff i k, eq_iff x w, contains-supported_values m k w)

-- A value map has an entry with this value.
abbrev pub HasTarget : Dict (Option String) → String → Type 0
HasTarget [] x = ⊥
HasTarget ((k, none) ∷ m) x = HasTarget m x
HasTarget ((k, some y) ∷ m) x = (y ≡ x) ⊎ HasTarget m x

supported_values-HasTarget :
    (m : Dict (Option String)) (x : String) → contains (supported_values m) x ≡ true → HasTarget m x
unfolding supported_values
supported_values-HasTarget [] x h = cc
supported_values-HasTarget ((k, none) ∷ m) x h = supported_values-HasTarget m x h
supported_values-HasTarget ((k, some y) ∷ m) x h = elim (Bool-cases (str_eq y x)) [
  | inl e ↦ inl ((eq_iff y x).0 e)
  | inr e ↦ inr (supported_values-HasTarget m x (rw e at h))
]

module _ {F : Type 0} (m : Dict (Option String)) where
  -- The value is the string, or the map takes it to the string.
  abbrev pub StandsFor : Value F → String → Type 0
  StandsFor v x = (v ≡ str x) ⊎ ((s : String) × (v ≡ str s) × (get m s ≡ some (some x)))

  abbrev Supports : Value F → Value F → Type 0
  Supports v w = (x : String) × (w ≡ str x) × HasTarget m x × StandsFor v x

  mapped_value-Supports :
      (s : String) (o : Option (Option String)) (w : Value F)
      → get m s ≡ o
      → mapped_value o ≡ ok w
      → Supports (str s) w
  unfolding translate
  mapped_value-Supports s none w g h = cc
  mapped_value-Supports s (some none) w g h = cc
  mapped_value-Supports s (some (some x)) w g h = (
    x,
    ground arith,
    supported_values-HasTarget m x (contains-supported_values m s x g),
    inr (s, refl, g),
  )

  supported_value-Supports : (v w : Value F) → supported_value m v ≡ ok w → Supports v w
  unfolding translate
  supported_value-Supports (str s) w h = elim (Bool-cases (contains (supported_values m) s)) [
    | inl e ↦ (s, ground arith, supported_values-HasTarget m s e, inl refl)
    | inr e ↦ mapped_value-Supports s (get m s) w refl (ground arith)
  ]
  supported_value-Supports (strs s) w h = cc
  supported_value-Supports _ w h = cc

translate-restricted :
    {F : Type 0} (C : CumlClass F) (k : String) (m : Dict (Option String)) (v : Value F)
    → get C.param_value_mapping k ≡ some m
    → translate C k v ≡ supported_value m v
unfolding translate
translate-restricted C k m v e = rw (e, translate) refl

module _ {F : Type 0} {P : SparkParams F} where
  -- A string that the value map supports is stored for the value, and nothing else is changed.
  abbrev pub IsStored : String → Dict (Option String) → Value F → Instance P → Instance P → Type 0
  IsStored k m v s s' =
      (x : String) × HasTarget m x
      × StandsFor m v x
      × (get s'.cuml k ≡ some (str x))
      × ((j : String) → k ≢ j → get s'.cuml j ≡ get s.cuml j)
      × (s'.spark ≡ s.spark)
      × (s'.num_workers ≡ s.num_workers)

  store-IsStored :
      (k : String) (m : Dict (Option String)) (v : Value F) (r : Result (Value F)) (s : Instance P)
      → supported_value m v ≡ r
      → (store k r s).0 ≡ ok tt
      → IsStored k m v s (store k r s).1
  store-IsStored k m v (err e) s q h = cc
  store-IsStored k m v (ok w) s q h =
      let (x, same, target, stands) = supported_value-Supports m v w q in
      (
        x,
        target,
        stands,
        get-put s.cuml k k w ∙ rw (eq_refl k) (ap some same),
        λ j n. get-put s.cuml k j w ∙ rw (str_eq-ne k j n) refl,
        refl,
        refl,
      )

  -- Where the class restricts the values of a cuML parameter and `_set_cuml_value` returns, the
  -- parameter holds one of the strings that the class's value map has for values: the given value
  -- itself, or what the map takes it to. No other cuML parameter is changed, and no Spark param.
  pub set_cuml_value-IsStored :
      (C : CumlClass F) (k : String) (m : Dict (Option String)) (v : Value F) (s : Instance P)
      → get C.param_value_mapping k ≡ some m
      → (set_cuml_value C k v s).0 ≡ ok tt
      → IsStored k m v s (set_cuml_value C k v s).1
  unfolding set_cuml_value
  set_cuml_value-IsStored C k m v s e h =
      let same : translate C k v ≡ supported_value m v = translate-restricted C k m v e in
      rw same (store-IsStored k m v (supported_value m v) s refl (rw same at h))
