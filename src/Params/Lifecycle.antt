-- ===== src/Params/Lifecycle.antt =====
-- `initialize_cuml_params`, `clear` and `_copy_cuml_params`.
use spark_rapids_ml.Base.{String, true, Option, some, [], ◌∷◌, str_eq, if◌then◌else◌}
use spark_rapids_ml.Py.{Result, ok, err, Exec, return, ◌>>◌}
use spark_rapids_ml.Py.Dict.{Dict, get, has, put}
use spark_rapids_ml.Py.Value.{Value}
use spark_rapids_ml.Params.Spark.{SparkParams}
use spark_rapids_ml.Params.Class.{Mapping, CumlClass, get_cuml_params_default}
use spark_rapids_ml.Params.Values.{Instance, write_cuml, set_cuml_param}

module _ {F : Type 0} {P : SparkParams F} where
  abbrev pub read : Result (Value F) → (Value F → Exec (Instance P) Unit) → Exec (Instance P) Unit
  read (ok v) f s = f v s
  read (err e) f s = (err e, s)

  -- The body of the loop of `initialize_cuml_params`.
  unfoldable pub initialize_param : CumlClass F → String → Exec (Instance P) Unit
  initialize_param C k s =
      (if P.has_default s.spark k
          then read (P.get s.spark k) (λ v. set_cuml_param C k v true)
          else return tt)
        s

  -- The loop over the keys of the mapping.
  unfoldable pub initialize_each : CumlClass F → Mapping → Exec (Instance P) Unit
  initialize_each C [] = return tt
  initialize_each C ((k, target) ∷ m) = initialize_param C k >> initialize_each C m

  unfoldable pub initialize_cuml_params : CumlClass F → Exec (Instance P) Unit
  initialize_cuml_params C s =
      initialize_each C C.param_mapping (record s { cuml = get_cuml_params_default C })

  abbrev clear_target : Option (Option String) → String → Exec (Instance P) Unit
  clear_target (some (some c)) k s =
      (if str_eq c "" then return tt else read (P.get s.spark k) (λ v. write_cuml c v)) s
  clear_target _ k s = (ok tt, s)

  unfoldable pub clear : CumlClass F → String → Exec (Instance P) Unit
  clear C k s = clear_target (get C.param_mapping k) k (record s { spark = P.clear s.spark k })

-- The loop of `_copy_cuml_params`: entries of the first dict into the second, where it has the key.
unfoldable pub copy_known {ℓ} : {V : Type ℓ} → Dict V → Dict V → Dict V
copy_known [] to = to
copy_known ((k, v) ∷ from) to = copy_known from (if has to k then put to k v else to)

unfoldable pub copy_cuml_params :
    {F : Type 0} {P Q : SparkParams F} → Instance P → Instance Q → Instance Q
unfolding copy_known
copy_cuml_params s to = record to { cuml = copy_known s.cuml to.cuml }
