-- ===== src/Tests/Fitting.antt =====
-- Fits, the objects that transforms use, the rows of a transform, and the number of workers.
use spark_rapids_ml.Base.{ℕ, ◌<◌, ◌==◌, ◌≡◌, refl, arith, true, false, some, [], ◌∷◌}
use spark_rapids_ml.Py.{ok, bind}
use spark_rapids_ml.Py.Dict.{Dict}
use spark_rapids_ml.Py.Value.{pos}
use spark_rapids_ml.Params.Workers.{Session, infer_num_workers, infer_num_workers-cluster}
use spark_rapids_ml.Models.Rows.{
  Attribute, Fitted, linear_fitted, linear_regression, fit_row, out_fields, construct,
}
use spark_rapids_ml.Models.RowsLaws.{HasFields, SameFields, within, construct-fit_row}
use spark_rapids_ml.Models.Objects.{linear_object, construct_object, construct_object-Fitted}

abbrev fitted : Fitted ℕ
fitted = linear_fitted (3 ∷ 4 ∷ []) 5 2 "float32"

construct_object-Fitted_example :
    bind
      (construct linear_regression (fit_row fitted))
      (construct_object (λ dtype x. x) (λ s. ok s) linear_regression [])
    ≡ ok (linear_object (3 ∷ 4 ∷ []) 5 2 "float32")
construct_object-Fitted_example =
    construct_object-Fitted (λ dtype x. x) (λ s. ok s) [] fitted (refl, (refl, tt))

construct-fit_row_example :
    HasFields (out_fields linear_regression) (fit_row fitted)
    × (within (out_fields linear_regression) (fit_row fitted) ≡ true)
    × ((attributes : Dict (Attribute ℕ)) × (construct linear_regression (fit_row fitted)
          ≡ ok attributes)
        × SameFields (out_fields linear_regression) attributes (fit_row fitted)
        × (construct linear_regression attributes ≡ ok attributes))
construct-fit_row_example = construct-fit_row fitted

-- Three executors with one GPU each, and tasks that are given two.
abbrev session : Session ℕ
session = record {
  is_local = ok false;
  device_count = ok 0;
  conf = λ key d. ok key;
  executor_infos = ok 4;
  parse_int = λ s. ok (pos 3);
  parse_float = λ s. ok 2;
  one = 1;
  equals_one = λ t. t == 1;
  multiply = λ n x. ok 6;
  divide = λ x y. ok x;
  truncate = λ x. ok (pos x);
}

infer_num_workers-cluster_example :
    (infer_num_workers (ok (some session)) ≡ 6) × (0 < infer_num_workers (ok (some session)))
infer_num_workers-cluster_example =
    infer_num_workers-cluster session 2 refl refl (λ h. absurd (ground arith))
