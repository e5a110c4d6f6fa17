-- ===== src/Tests/Predict.antt =====
-- The columns that tasks read, and the rows of a transform.
use mathlib.Core.List.{append-nil}
use spark_rapids_ml.Base.{
  ℕ, ◌+◌, ◌≡◌, ◌≢◌, refl, arith, eq_iff, String, true, none, some, List, [], ◌∷◌, map, length,
  flatten,
}
use spark_rapids_ml.Py.{Result, ok, err, attribute_error}
use spark_rapids_ml.Py.Dict.{Dict, get, put}
use spark_rapids_ml.Py.Value.{str, strs}
use spark_rapids_ml.Utils.Devices.{
  set_gpu_device, set_gpu_device-transform, float32, dtype_to_pyspark_type,
}
use spark_rapids_ml.Core.Columns.{float, integral, floating, label_alias, Schema, col, alias, cast}
use spark_rapids_ml.Core.Features.{Selection}
use spark_rapids_ml.Core.Inputs.{Pdf}
use spark_rapids_ml.Models.Rows.{
  Attribute, text, count, Fitted, classifier_fitted, random_forest_classifier, construct, fit_row,
}
use spark_rapids_ml.Models.Objects.{CumlObject, forest_object}
use spark_rapids_ml.Models.Predict.{Predictor, probabilities_array, model_udf}
use spark_rapids_ml.Models.PredictLaws.{model-transform}
use spark_rapids_ml.Models.Added.{model_target, model_target-columns}
use spark_rapids_ml.Core.Transform.{
  others, Dataset, Prepared, prepare, transform, structured, tmp_name,
}
use spark_rapids_ml.Core.TransformLaws.{added}
use spark_rapids_ml.Core.Udf.{Udf}
use spark_rapids_ml.Core.Predict.{predict_udf}
use spark_rapids_ml.Core.TableLaws.{AreRows}
use spark_rapids_ml.Core.PredictLaws.{scores}
use spark_rapids_ml.Tests.Table.{Table, table_params}

abbrev named : Table
named = record {
  declared = ("predictionCol", none) ∷ ("probabilityCol", none) ∷ [];
  values = ("predictionCol", str "p") ∷ ("probabilityCol", str "q") ∷ [];
}

model_target-columns_example :
    model_target table_params random_forest_classifier (some float32) named
    ≡ ok (structured "p" (some "q"))
unfolding get dtype_to_pyspark_type
model_target-columns_example =
    model_target-columns table_params random_forest_classifier float32 named "float" "p" "q" refl
      refl refl

-- Two GPUs on one machine, and a forest that adds its number to the first cell of a row, and has
-- the cell itself for the probability.
abbrev cell_at : String → Dict ℕ → ℕ
cell_at c row = elim (get row c) [ none ↦ 0 | some x ↦ x ]

abbrev machine : Udf (Dict ℕ) ℕ (ℕ × ℕ) (CumlObject ℕ ℕ)
machine = record {
  total_gpus = 2;
  parse_address = λ a. ok 0;
  is_local = true;
  context = λ i. record { resources = []; partition_id = i };
  construct = λ gpu. err attribute_error;
  transform = λ object xs. ok [];
  cells = λ names row. cell_at "a" row;
  array = λ name row. cell_at name row;
}

abbrev score : ℕ → ℕ × ℕ
score x = (7 + x, x)

abbrev predictor : Predictor ℕ ℕ ℕ ℕ
predictor = record {
  predict = λ object xs. ok (map (λ x. 7 + x) xs);
  predict_proba = λ object xs. ok (probabilities_array (map (λ x. x) xs));
  projection = record {
    add = λ x y. x + y;
    matmul_transposed = λ v m. v;
    cuml_transform = λ mean components v. v;
  };
  row = λ x. x ∷ [];
  cell = λ l. length l;
  nan = 0;
}

abbrev load : String → Result ℕ
load bytes = ok 7

devices :
    (i : ℕ)
    → (gpu : ℕ) × (set_gpu_device (λ a. ok 0) 2 (some (machine.context i)) true true ≡ ok gpu)
devices i =
    let (g, e, _) = set_gpu_device-transform (λ a. ok 0) 2 (machine.context i) (omega arith) in
    (g, e)

abbrev forest : Fitted ℕ
forest = classifier_fitted "bytes" 2 2 "float32"

abbrev model : Dict (Attribute ℕ)
model =
    ("treelite_model", text "bytes")
    ∷ ("num_classes", count 2)
    ∷ ("dtype", text "float32")
    ∷ ("n_cols", count 2)
    ∷ []

-- One partition with a batch for the first row, and one for the others.
abbrev divide : List (Dict ℕ) → List (List (List (Dict ℕ)))
divide [] = []
divide (row ∷ rows) = ((row ∷ []) ∷ rows ∷ []) ∷ []

divided : (rows : List (Dict ℕ)) → flatten (flatten (divide rows)) ≡ rows
divided [] = refl
divided (row ∷ rows) = rw append-nil refl

abbrev table : Dataset (List ℕ)
table = ("id", others (1 ∷ 2 ∷ 3 ∷ [])) ∷ ("a", others (4 ∷ 5 ∷ 6 ∷ [])) ∷ []

abbrev prepared : Prepared (List ℕ)
prepared = record { dataset = table; select_cols = "a" ∷ "id" ∷ []; input_is_multi_cols = true }

tmp-ne-p : ◌≢◌ {A = String} tmp_name "p"
tmp-ne-p h = ground (arith, eq_iff tmp_name "p")

tmp-ne-a : ◌≢◌ {A = String} tmp_name "a"
tmp-ne-a h = ground (arith, eq_iff tmp_name "a")

tmp-ne-id : ◌≢◌ {A = String} tmp_name "id"
tmp-ne-id h = ground (arith, eq_iff tmp_name "id")

abbrev job : Udf (Dict ℕ) ℕ (ℕ × ℕ) (CumlObject ℕ ℕ)
job = model_udf predictor (λ dtype x. x) load machine random_forest_classifier [] model

made : construct random_forest_classifier (fit_row forest) ≡ ok model
unfolding construct fit_row get put
made = refl

model-transform_example :
    (rows : List (Dict ℕ)) × (out : Dataset (List ℕ)) × (length rows ≡ 3)
    × AreRows table ("a" ∷ "id" ∷ []) 0 rows
    × (transform {F = ℕ}
          (predict_udf job divide 3)
          (λ ys. [])
          (none, some (strs ("a" ∷ "id" ∷ [])))
          (model_target table_params random_forest_classifier (some float32) named)
          table
        ≡ ok out)
    × (get out "p"
        ≡ added
            (structured "p" (some "q"))
            (map (λ y. y.0) (scores machine divide score true ("a" ∷ "id" ∷ []) rows))
            (map (λ y. y.1) (scores machine divide score true ("a" ∷ "id" ∷ []) rows))
            "p"
            none)
unfolding prepare get dtype_to_pyspark_type
model-transform_example =
    model-transform predictor (λ dtype x. x) load machine divide table_params [] forest
      (forest_object true 7) model score (λ ys. []) (none, some (strs ("a" ∷ "id" ∷ []))) table
      prepared 3 float32 named "float" "p" "q" "p" tt refl made
      (λ xs. (refl, (probabilities_array (map (λ x. x) xs), refl, refl))) devices divided refl refl
      refl refl (tmp-ne-a, (tmp-ne-id, tt))
      ((others (4 ∷ 5 ∷ 6 ∷ []), refl, refl), ((others (1 ∷ 2 ∷ 3 ∷ []), refl, refl), tt)) tmp-ne-p

abbrev columns_xy : Schema
columns_xy = ("x", floating float) ∷ ("y", integral) ∷ []

abbrev selected : Selection
selected = record {
  select_cols = col "x" ∷ alias (cast (col "y") float) label_alias ∷ [];
  multi_col_names = some ("x" ∷ []);
  dimension = 1;
  feature_type = float;
}

abbrev pdf : Pdf ℕ
pdf = record { columns = ("x", 3) ∷ (label_alias, 4) ∷ []; num_rows = 1 }
