-- ===== src/Tests/Columns.antt =====
-- Input and label columns of small schemas, and the solvers of a linear regression.
use spark_rapids_ml.Base.{ℕ, ◌*◌, ◌≡◌, refl, String, none, some, [], ◌∷◌, ◌==◌}
use spark_rapids_ml.Py.{Result, ok, err, runtime_error}
use spark_rapids_ml.Py.Dict.{Dict, get, put}
use spark_rapids_ml.Py.Value.{ℤ, pos, negsuc, Value, float, str, strs, Floats}
use spark_rapids_ml.Core.Columns.{
  float as float_type, double, integral, floating, array_of, Schema, col, alias, cast, cast_int,
  data_alias, label_alias,
}
use spark_rapids_ml.Core.Features.{
  Selection, type_at, single_column, one_column, many_columns, pre_process_columns,
}
use spark_rapids_ml.Core.Selection.{ManySelected, pre_process_columns-many}
use spark_rapids_ml.Core.SingleColumn.{SingleSelected, pre_process_columns-single}
use spark_rapids_ml.Core.Labels.{label_column, pre_process_label, supervised_pre_process}
use spark_rapids_ml.Regression.Fit.{ridge_mg, lookup, scale, choose_solver, pre_process_data}
use spark_rapids_ml.Regression.FitLaws.{pre_process_data-one_column}

abbrev schema : Schema
schema =
    ("age", integral)
    ∷ ("height", floating double)
    ∷ ("features", array_of float_type)
    ∷ ("label", floating double)
    ∷ []

abbrev first_length : String → Result ℕ
first_length c = ok 3

abbrev many : Selection
many = record {
  select_cols = alias (cast (col "age") float_type) "age" ∷ col "height" ∷ [];
  multi_col_names = some ("age" ∷ "height" ∷ []);
  dimension = 2;
  feature_type = double;
}

many_run :
    pre_process_columns {F = ℕ} schema first_length (none, some (strs ("age" ∷ "height" ∷ [])))
    ≡ ok many
unfolding pre_process_columns many_columns one_column type_at get
many_run = refl

pre_process_columns-many_example : ManySelected schema ("age" ∷ "height" ∷ []) many
pre_process_columns-many_example =
    pre_process_columns-many ℕ schema first_length ("age" ∷ "height" ∷ []) many many_run

abbrev single : Selection
single = record {
  select_cols = alias (col "features") data_alias ∷ [];
  multi_col_names = none;
  dimension = 3;
  feature_type = float_type;
}

single_run :
    pre_process_columns {F = ℕ} schema first_length (some (str "features"), none) ≡ ok single
unfolding pre_process_columns single_column type_at get
single_run = refl

pre_process_columns-single_example : SingleSelected schema first_length "features" single
pre_process_columns-single_example =
    pre_process_columns-single {F = ℕ} schema first_length "features" none single single_run

abbrev labelled_selection : Selection
labelled_selection = record {
  select_cols =
      alias (col "features") data_alias ∷ alias (cast (col "label") float_type) label_alias ∷ [];
  multi_col_names = none;
  dimension = 3;
  feature_type = float_type;
}

labelled_run :
    supervised_pre_process {F = ℕ} pre_process_label schema first_length
      (some (str "features"), none)
      "label"
    ≡ ok labelled_selection
unfolding supervised_pre_process pre_process_columns single_column type_at pre_process_label
    label_column get
labelled_run = refl

abbrev classified : Selection
classified = record {
  select_cols = alias (col "features") data_alias ∷ alias (cast_int (col "label")) label_alias ∷ [];
  multi_col_names = none;
  dimension = 3;
  feature_type = float_type;
}

abbrev number_of : ℤ → ℕ
number_of (pos n) = n
number_of (negsuc n) = 0

-- Numbers in place of floats.
abbrev pub numbers : Floats ℕ
numbers = record {
  is_zero = λ x. x == 0;
  of_int = number_of;
  multiply = λ x y. x * y;
  one = 1;
  third = 0;
}

abbrev ridge : Dict (Value ℕ)
ridge = ("alpha", float 2) ∷ ("l1_ratio", float 0) ∷ ("tol", float 1) ∷ []

abbrev one_wide : Selection
one_wide = record { select_cols = []; multi_col_names = none; dimension = 1; feature_type = double }

ridge_chosen :
    choose_solver numbers ridge 5
    ≡ ok (ridge_mg, ("alpha", float 10) ∷ ("l1_ratio", float 0) ∷ ("tol", float 1) ∷ [])
unfolding choose_solver lookup scale get put
ridge_chosen = refl

pre_process_data-one_column_example : pre_process_data numbers ridge one_wide ≡ err runtime_error
pre_process_data-one_column_example =
    pre_process_data-one_column numbers ridge one_wide 5 ridge_mg
      (("alpha", float 10) ∷ ("l1_ratio", float 0) ∷ ("tol", float 1) ∷ []) ridge_chosen
