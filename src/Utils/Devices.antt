-- ===== src/Utils/Devices.antt =====
-- The GPU and the log level of a task: `_get_gpu_id`, and `set_gpu_device` and
-- `initialize_cuml_logging` of `_CumlCommon`; `dtype_to_pyspark_type`.
use native.Mathlib.Nat.{mod-eq_of_lt}
use spark_rapids_ml.Base.{
  ℕ, ◌%◌, ◌<◌, ◌≡◌, ◌≢◌, String, Bool, true, false, Option, none, some, List, [], ◌∷◌, arith, ◌==◌,
  if◌then◌else◌,
}
use spark_rapids_ml.Py.{
  Result, ok, err, runtime_error, assertion_error, index_error, value_error, zero_division,
}
use spark_rapids_ml.Py.Dict.{Dict, get}
use spark_rapids_ml.Py.Value.{ℤ, pos, Value, none_value, bool, int}

-- A task's context: the addresses of each of its resources, and the id of its partition.
pub record TaskContext : Type 0 where
  pub resources : Dict (List String)
  pub partition_id : ℕ

-- `int(address.strip())` is a parameter.
module _ (parse_address : String → Result ℕ) where
  first_address : Option (List String) → Result ℕ
  first_address none = err runtime_error
  first_address (some []) = err index_error
  first_address (some (a ∷ rest)) = parse_address a

  unfoldable pub get_gpu_id : Option TaskContext → Result ℕ
  unfolding first_address
  get_gpu_id none = err runtime_error
  get_gpu_id (some context) = first_address (get context.resources "gpu")

  -- The device that the task uses. `total_gpus` is what the CUDA runtime counts.
  unfoldable pub set_gpu_device : ℕ → Option TaskContext → Bool → Bool → Result ℕ
  unfolding get_gpu_id
  set_gpu_device total_gpus none is_local is_transform = err assertion_error
  set_gpu_device total_gpus (some context) true true =
      if total_gpus == 0 then err zero_division else ok (context.partition_id % total_gpus)
  set_gpu_device total_gpus (some context) true false = ok context.partition_id
  set_gpu_device total_gpus (some context) false is_transform = get_gpu_id (some context)

  -- A transform in local mode, on a machine with GPUs, uses a device that is there, whatever the
  -- id of the task's partition.
  pub set_gpu_device-transform :
      (total_gpus : ℕ) (c : TaskContext)
      → 0 < total_gpus
      → (g : ℕ) × (set_gpu_device total_gpus (some c) true true ≡ ok g) × (g < total_gpus)
  unfolding set_gpu_device
  set_gpu_device-transform n c h = (c.partition_id % n, ground arith, omega arith)

  -- In local mode, two tasks with different partition ids below the number of devices use
  -- different devices, both in a fit and in a transform.
  pub set_gpu_device-injective :
      (total_gpus : ℕ) (c d : TaskContext) (is_transform : Bool)
      → c.partition_id < total_gpus
      → d.partition_id < total_gpus
      → c.partition_id ≢ d.partition_id
      → set_gpu_device total_gpus (some c) true is_transform
        ≢ set_gpu_device total_gpus (some d) true is_transform
  unfolding set_gpu_device
  set_gpu_device-injective n c d true h k ne e = ne (ground (arith, mod-eq_of_lt h, mod-eq_of_lt k))
  set_gpu_device-injective n c d false h k ne e = ground arith

-- The level that cuML's logger is set to; `none` leaves it as it is.
unfoldable pub initialize_cuml_logging : {F : Type 0} → Value F → Result (Option ℤ)
initialize_cuml_logging none_value = ok none
initialize_cuml_logging (bool true) = ok (some (pos 5))
initialize_cuml_logging (bool false) = ok (some (pos 4))
initialize_cuml_logging (int n) = ok (some n)
initialize_cuml_logging _ = err value_error

pub data Dtype : Type 0 where
  float32 float64 int32 int16 other_dtype : Dtype

unfoldable pub dtype_to_pyspark_type : Dtype → Result String
dtype_to_pyspark_type float32 = ok "float"
dtype_to_pyspark_type float64 = ok "double"
dtype_to_pyspark_type int32 = ok "int"
dtype_to_pyspark_type int16 = ok "short"
dtype_to_pyspark_type other_dtype = err runtime_error
