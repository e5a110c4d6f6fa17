-- ===== src/Params/Spark.antt =====
-- pyspark.ml.param.Params, which the code inherits and does not implement: an interface, and the
-- documented behaviour that the proofs rely on.
use spark_rapids_ml.Base.{String, ◌≡◌, Bool, true, str_eq, if◌then◌else◌}
use spark_rapids_ml.Py.{Result, ok}
use spark_rapids_ml.Py.Value.{Value}

pub record SparkParams (F : Type 0) : Type 1 where
  pub State : Type 0
  pub has_param : State → String → Bool
  pub has_default : State → String → Bool
  pub is_set : State → String → Bool
  pub is_defined : State → String → Bool
  -- getOrDefault
  pub get : State → String → Result (Value F)
  -- the default value alone
  pub default : State → String → Result (Value F)
  -- the type converter of a param
  pub convert : String → Value F → Result (Value F)
  -- _set
  pub set : State → String → Value F → Result State
  -- Params.clear
  pub clear : State → String → State
  -- _copyValues: from the first into the second
  pub copy_values : State → State → State

pub record IsLawful {F : Type 0} (P : SparkParams F) : Type 0 where
  -- Setting a value does not declare or remove params.
  pub has_param-set :
      (s s' : P.State) (k j : String) (v : Value F)
      → P.set s k v ≡ ok s'
      → P.has_param s' j ≡ P.has_param s j
  -- A value that was set is read back through its converter, and other params keep theirs.
  pub get-set :
      (s s' : P.State) (k j : String) (v : Value F)
      → P.set s k v ≡ ok s'
      → P.get s' j ≡ (if str_eq k j then P.convert k v else P.get s j)
  -- Clearing a param gives it its default value again.
  pub get-clear :
      (s : P.State) (k j : String)
      → P.get (P.clear s k) j ≡ (if str_eq k j then P.default s k else P.get s j)
  -- A param that was set is defined.
  pub is_defined-set :
      (s s' : P.State) (k j : String) (v : Value F)
      → P.set s k v ≡ ok s'
      → P.is_defined s' j ≡ (if str_eq k j then true else P.is_defined s j)
