-- ===== src/Params/Set.antt =====
-- `_CumlParams.set_params`.
use spark_rapids_ml.Base.{
  String, Bool, false, not, ◌&&◌, ◌||◌, Option, none, some, [], ◌∷◌, str_eq, if◌then◌else◌,
}
use spark_rapids_ml.Py.{Result, ok, err, value_error, type_error, Exec, return, raise, ◌>>◌}
use spark_rapids_ml.Py.Dict.{Dict, has}
use spark_rapids_ml.Py.Value.{Value}
use spark_rapids_ml.Params.Spark.{SparkParams}
use spark_rapids_ml.Params.Class.{Mapping, CumlClass}
use spark_rapids_ml.Params.Values.{Instance, write_cuml, set_cuml_param}

-- Both sides of one entry of the mapping are among the keywords. `None in kwargs` is false.
unfoldable pub sets_both_sides {ℓ} : {V : Type ℓ} → Mapping → Dict V → Bool
sets_both_sides [] kwargs = false
sets_both_sides ((k, none) ∷ m) kwargs = sets_both_sides m kwargs
sets_both_sides ((k, some c) ∷ m) kwargs =
    (not (str_eq k c) && has kwargs k && has kwargs c) || sets_both_sides m kwargs

abbrev pub is_target : String → Option String → Bool
is_target k none = false
is_target k (some c) = str_eq k c

module _ {F : Type 0} {P : SparkParams F} where
  abbrev pub stored : Result P.State → Exec (Instance P) Unit
  stored (ok spark) s = (ok tt, record s { spark = spark })
  stored (err e) s = (err e, s)

  -- self._set(k = v)
  unfoldable pub set_spark : String → Value F → Exec (Instance P) Unit
  set_spark k v s = stored (P.set s.spark k v) s

  -- `try: self._set(k = v)`, `except TypeError: pass`
  abbrev pub stored_or_skipped : Result P.State → Exec (Instance P) Unit
  stored_or_skipped (ok spark) s = (ok tt, record s { spark = spark })
  stored_or_skipped (err type_error) s = (ok tt, s)
  stored_or_skipped (err e) s = (err e, s)

  unfoldable pub try_set_spark : String → Value F → Exec (Instance P) Unit
  try_set_spark k v s = stored_or_skipped (P.set s.spark k v) s

  -- The inner loop: sets the Spark params that are mapped to the cuML parameter `k`.
  unfoldable pub set_matching : Mapping → String → Value F → Exec (Instance P) Unit
  unfolding try_set_spark
  set_matching [] k v = return tt
  set_matching ((name, target) ∷ m) k v =
      (if is_target k target then try_set_spark name v else return tt) >> set_matching m k v

  unfoldable pub set_num_workers : Value F → Exec (Instance P) Unit
  set_num_workers v s = (ok tt, record s { num_workers = v })

  -- The body of the loop over the keywords.
  unfoldable pub set_param : CumlClass F → String → Value F → Exec (Instance P) Unit
  unfolding set_spark set_num_workers
  set_param C k v s =
      (if P.has_param s.spark k
          then (set_spark k v >> set_cuml_param C k v false)
          else if has s.cuml k
          then (write_cuml k v >> set_matching C.param_mapping k v)
          else if str_eq k "num_workers"
          then set_num_workers v
          else raise value_error)
        s

  unfoldable pub set_each : CumlClass F → Dict (Value F) → Exec (Instance P) Unit
  set_each C [] = return tt
  set_each C ((k, v) ∷ kwargs) = set_param C k v >> set_each C kwargs

  unfoldable pub set_params : CumlClass F → Dict (Value F) → Exec (Instance P) Unit
  set_params C kwargs =
      if sets_both_sides C.param_mapping kwargs then raise value_error else set_each C kwargs
