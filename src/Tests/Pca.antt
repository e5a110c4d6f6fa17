-- ===== src/Tests/Pca.antt =====
-- A PCA model over the field of two elements, and one whose params are a table; pyspark's models.
use spark_rapids_ml.Base.{
  ℕ, ◌≡◌, refl, Bool, true, false, not, Option, none, some, List, [], ◌∷◌, map,
}
use spark_rapids_ml.Py.{Result, ok}
use spark_rapids_ml.Py.Dict.{Dict}
use spark_rapids_ml.Py.Value.{pos, Value, int}
use spark_rapids_ml.Params.Class.{Signature}
use spark_rapids_ml.Models.Pca.{Projection, transformed_mean, transform_internal}
use spark_rapids_ml.Models.PcaLaws.{IsExact, Computes, dot, centred, transform_internal-dot}
use spark_rapids_ml.Models.Cpu.{
  SparkModel, CpuState, CpuAttributes, pca_attributes, IsReused, cpu-cpu,
}
use spark_rapids_ml.Tests.Table.{Table, table_params}

abbrev xor : Bool → Bool → Bool
xor true b = not b
xor false b = b

abbrev both : Bool → Bool → Bool
both true b = b
both false b = false

-- In the field of two elements, a difference is a sum.
abbrev bit_dot : List Bool → List Bool → Bool
bit_dot (x ∷ xs) (y ∷ ys) = xor (both x y) (bit_dot xs ys)
bit_dot _ _ = false

abbrev bit_centred : List Bool → List Bool → List Bool
bit_centred (x ∷ xs) (m ∷ mean) = xor x m ∷ bit_centred xs mean
bit_centred _ _ = []

abbrev bits : Projection Bool
bits = record {
  add = xor;
  matmul_transposed = λ x components. map (bit_dot x) components;
  cuml_transform = λ mean components x. map (bit_dot (bit_centred x mean)) components;
}

not-xor : (s t : Bool) → xor (not s) t ≡ not (xor s t)
not-xor true true = refl
not-xor true false = refl
not-xor false t = refl

xor-not : (s t : Bool) → xor s (not t) ≡ not (xor s t)
xor-not true t = refl
xor-not false t = refl

xor_same : (b s t : Bool) → xor (xor b s) (xor b t) ≡ xor s t
xor_same false s t = refl
xor_same true true true = refl
xor_same true true false = refl
xor_same true false true = refl
xor_same true false false = refl

cancel :
    (x m c s t : Bool)
    → xor (xor (both (xor x m) c) s) (xor (both m c) t) ≡ xor (both x c) (xor s t)
cancel true true true s t = xor-not s t
cancel true true false s t = refl
cancel true false true s t = not-xor s t
cancel true false false s t = refl
cancel false m c s t = xor_same (both m c) s t

abbrev bits-IsExact : IsExact bits
bits-IsExact = record {
  zero_number = false;
  sub = xor;
  mul = both;
  add-zero = refl;
  mul-sub = cancel;
}

bit_dot-dot : (x c : List Bool) → bit_dot x c ≡ dot bits bits-IsExact x c
unfolding dot
bit_dot-dot [] c = refl
bit_dot-dot (x ∷ xs) [] = refl
bit_dot-dot (x ∷ xs) (c ∷ cs) = rw (bit_dot-dot xs cs) refl

bit_centred-centred : (x m : List Bool) → bit_centred x m ≡ centred bits bits-IsExact x m
unfolding centred
bit_centred-centred [] m = refl
bit_centred-centred (x ∷ xs) [] = refl
bit_centred-centred (x ∷ xs) (m ∷ ms) = rw (bit_centred-centred xs ms) refl

products :
    (x : List Bool) (components : List (List Bool))
    → map (bit_dot x) components ≡ map (dot bits bits-IsExact x) components
products x [] = refl
products x (c ∷ components) = rw (bit_dot-dot x c, products x components) refl

bits-Computes : Computes bits bits-IsExact
bits-Computes = record {
  matmul_lem = products;
  cuml_transform_lem = λ mean x components.
      rw (bit_centred-centred x mean) (products (centred bits bits-IsExact x mean) components);
}

transform_internal-dot_example :
    transform_internal bits
      (bits.cuml_transform (true ∷ true ∷ []) ((true ∷ false ∷ []) ∷ []))
      (transformed_mean bits (λ dtype x. x) "float32" (true ∷ true ∷ []) ((true ∷ false ∷ []) ∷ []))
      ((false ∷ true ∷ []) ∷ [])
    ≡ (false ∷ []) ∷ []
unfolding dot
transform_internal-dot_example =
    transform_internal-dot bits bits-IsExact (λ dtype x. x) "float32" (true ∷ true ∷ [])
      ((true ∷ false ∷ []) ∷ []) ((false ∷ true ∷ []) ∷ []) bits-Computes (refl, tt)
      ((refl, tt), tt)

abbrev signature : Signature ℕ
signature = ("n_components", some (int (pos 1))) ∷ []

abbrev params_of : Dict (Option (Value ℕ)) → Dict (Value ℕ) → Table
params_of declared values = record { declared = declared; values = values }

-- A model with no pyspark model yet.
abbrev new_state : CpuState table_params table_params
new_state = record { cpu_model = none; spark = params_of [] []; next_uid = 4 }

abbrev constant : SparkModel table_params → ℕ → Result ℕ
constant model value = ok 0

-- A model of two components of two columns.
abbrev axes : CpuAttributes ℕ
axes = pca_attributes ((1 ∷ 2 ∷ []) ∷ (3 ∷ 4 ∷ []) ∷ []) 2 (5 ∷ 6 ∷ [])

cpu-cpu_example :
    (m : SparkModel table_params) × (s' : CpuState table_params table_params) × IsReused
      table_params table_params 1 true
      (params_of [] [])
      table_params.copy_values
      constant
      axes
      new_state
      (params_of (("k", none) ∷ []) [])
      7
      m
      s'
cpu-cpu_example =
    cpu-cpu table_params table_params 1 true (params_of [] []) table_params.copy_values constant
      axes new_state (params_of (("k", none) ∷ []) []) 7 refl (refl, (refl, tt)) tt
