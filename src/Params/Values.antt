-- ===== src/Params/Values.antt =====
-- `_CumlParams`: its state, and `_set_cuml_value` and `_set_cuml_param`.
use spark_rapids_ml.Base.{String, Bool, Option, none, some, List, [], ◌∷◌, str_eq, if◌then◌else◌}
use spark_rapids_ml.Py.{Result, ok, err, value_error, type_error, Exec, return, raise}
use spark_rapids_ml.Py.Dict.{Dict, get, put, contains}
use spark_rapids_ml.Py.Value.{Value, str, strs}
use spark_rapids_ml.Params.Spark.{SparkParams}
use spark_rapids_ml.Params.Class.{CumlClass}

-- `num_workers` is `none_value` until it is set.
pub record Instance {F : Type 0} (P : SparkParams F) : Type 0 where
  pub spark : P.State
  pub cuml : Dict (Value F)
  pub num_workers : Value F

-- the set of the values of a value map that are not None
unfoldable pub supported_values : Dict (Option String) → List String
supported_values [] = []
supported_values ((k, none) ∷ m) = supported_values m
supported_values ((k, some x) ∷ m) = x ∷ supported_values m

module _ {F : Type 0} where
  -- `if mapped_v`: the empty string is false
  unfoldable pub mapped_value : Option (Option String) → Result (Value F)
  mapped_value (some (some w)) = if str_eq w "" then err value_error else ok (str w)
  mapped_value _ = err value_error

  -- A list cannot be looked up in a set. No value but a string equals a string.
  unfoldable pub supported_value : Dict (Option String) → Value F → Result (Value F)
  supported_value m (strs l) = err type_error
  supported_value m (str s) =
      if contains (supported_values m) s then ok (str s) else mapped_value (get m s)
  supported_value m _ = err value_error

  -- The value that `_set_cuml_value` stores for `v`, or its error.
  unfoldable pub translate : CumlClass F → String → Value F → Result (Value F)
  unfolding supported_value mapped_value supported_values
  translate C k v = elim (get C.param_value_mapping k) [
    | none ↦ ok v
    | some m ↦ supported_value m v
  ]

module _ {F : Type 0} {P : SparkParams F} where
  abbrev pub write_cuml : String → Value F → Exec (Instance P) Unit
  write_cuml k v s = (ok tt, record s { cuml = put s.cuml k v })

  abbrev pub store : String → Result (Value F) → Exec (Instance P) Unit
  store k (ok w) = write_cuml k w
  store k (err e) = raise e

  unfoldable pub set_cuml_value : CumlClass F → String → Value F → Exec (Instance P) Unit
  set_cuml_value C k v = store k (translate C k v)

  abbrev pub to_target : CumlClass F → Option String → Value F → Bool → Exec (Instance P) Unit
  to_target C none v silent = if silent then return tt else raise value_error
  to_target C (some c) v silent = if str_eq c "" then return tt else set_cuml_value C c v

  unfoldable pub set_cuml_param : CumlClass F → String → Value F → Bool → Exec (Instance P) Unit
  unfolding set_cuml_value
  set_cuml_param C k v silent = elim (get C.param_mapping k) [
    | none ↦ return tt
    | some target ↦ to_target C target v silent
  ]
