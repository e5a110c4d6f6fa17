-- ===== src/Tests/Params.antt =====
-- Params of a linear regression, over a table.
use spark_rapids_ml.Base.{
  ℕ, String, ◌≡◌, ◌≢◌, refl, true, false, Option, none, some, [], ◌∷◌, arith, eq_iff,
}
use spark_rapids_ml.Py.{ok, err, value_error}
use spark_rapids_ml.Py.Dict.{Dict, get, put, update, NodupKeys}
use spark_rapids_ml.Py.Value.{pos, Value, int, float, bool, str}
use spark_rapids_ml.Params.Class.{
  Signature, CumlClass, distinct_targets, has_target, get_cuml_params_default,
  default_params_from_func,
}
use spark_rapids_ml.Params.Values.{
  Instance, supported_values, supported_value, mapped_value, translate, set_cuml_value,
  set_cuml_param,
}
use spark_rapids_ml.Params.Set.{sets_both_sides, set_spark, set_param, set_each, set_params}
use spark_rapids_ml.Params.Lifecycle.{
  initialize_param, initialize_each, initialize_cuml_params, clear, copy_cuml_params,
}
use spark_rapids_ml.Params.Sync.{Reflects, set_params-Reflects}
use spark_rapids_ml.Algorithms.Constructors.{make_estimator, make_estimator-Holds}
use spark_rapids_ml.Params.Defaults.{Holds, initialize-Holds}
use spark_rapids_ml.Params.Reset.{get-copy_cuml_params, clear-untranslated}
use spark_rapids_ml.Params.Errors.{set_params-both_sides, set_params-refused}
use spark_rapids_ml.Params.Supported.{IsStored, set_cuml_value-IsStored}
use spark_rapids_ml.Algorithms.Classes.{linear_regression_class}
use spark_rapids_ml.Tests.Table.{Table, table_params, table-IsLawful}

abbrev signature : Signature ℕ
signature =
    ("handle", none)
    ∷ ("alpha", some (float 1))
    ∷ ("solver", some (str "eig"))
    ∷ ("loss", some (str "squared_loss"))
    ∷ ("verbose", some (bool false))
    ∷ []

abbrev pub regression : CumlClass ℕ
regression = linear_regression_class signature [] []

abbrev pub table : Table
table = record {
  declared =
      ("regParam", some (float 0))
      ∷ ("solver", some (str "auto"))
      ∷ ("loss", some (str "squaredError"))
      ∷ ("weightCol", none)
      ∷ ("featuresCol", some (str "features"))
      ∷ ("featuresCols", none)
      ∷ [];
  values = [];
}

abbrev pub instance_0 : Instance table_params
instance_0 = record {
  spark = table;
  cuml = ("alpha", float 1) ∷ ("solver", str "eig") ∷ ("loss", str "squared_loss") ∷ [];
  num_workers = int (pos 1);
}

abbrev pub keywords : Dict (Value ℕ)
keywords = ("regParam", float 7) ∷ ("solver", str "normal") ∷ ("num_workers", int (pos 2)) ∷ []

solver-ne : ◌≢◌ {A = String} "solver" ""
solver-ne h = ground (arith, eq_iff "solver" "")

mapping-NodupKeys : NodupKeys regression.param_mapping
unfolding get
mapping-NodupKeys = (
  refl,
  (refl, (refl, (refl, (refl, (refl, (refl, (refl, (refl, (refl, (refl, (refl, tt))))))))))),
)

distinct : distinct_targets regression.param_mapping ≡ true
unfolding distinct_targets has_target
distinct = refl

runs : (set_params {P = table_params} regression keywords instance_0).0 ≡ ok tt
unfolding set_params set_each set_param sets_both_sides set_spark set_cuml_param set_cuml_value
    translate supported_value mapped_value supported_values get put
runs = refl

set_params-Reflects_example :
    Reflects regression "solver" "solver"
      (str "normal")
      (set_params regression keywords instance_0).1
unfolding get
set_params-Reflects_example =
    set_params-Reflects table-IsLawful regression keywords "solver" "solver" (str "normal")
      instance_0 mapping-NodupKeys distinct (refl, (refl, (refl, tt))) refl refl refl solver-ne runs

initialized : (initialize_cuml_params {P = table_params} regression instance_0).0 ≡ ok tt
unfolding initialize_cuml_params initialize_each initialize_param set_cuml_param set_cuml_value
    translate supported_value mapped_value supported_values get put
initialized = refl

initialize-Holds_example :
    Holds regression "solver" (str "auto") (initialize_cuml_params regression instance_0).1
unfolding get
initialize-Holds_example =
    initialize-Holds table-IsLawful regression "solver" "solver" (str "auto") instance_0
      mapping-NodupKeys distinct refl solver-ne refl refl initialized

constructed : (make_estimator {P = table_params} regression keywords instance_0).0 ≡ ok tt
unfolding make_estimator set_params set_each set_param sets_both_sides set_spark set_cuml_param
    set_cuml_value translate supported_value mapped_value supported_values get put
    initialize_cuml_params initialize_each initialize_param get_cuml_params_default update
    default_params_from_func
constructed = refl

make_estimator-Holds_example :
    Holds regression "solver" (str "normal") (make_estimator regression keywords instance_0).1
unfolding get
make_estimator-Holds_example =
    make_estimator-Holds table-IsLawful regression keywords "solver" "solver" (str "normal")
      instance_0 mapping-NodupKeys distinct (refl, (refl, (refl, tt))) refl refl solver-ne refl
      constructed

-- Another instance, which has `alpha` and `tol`.
abbrev other : Instance table_params
other = record {
  spark = table;
  cuml = ("alpha", float 0) ∷ ("tol", float 2) ∷ [];
  num_workers = int (pos 1);
}

get-copy_cuml_params_example : get (copy_cuml_params instance_0 other).cuml "alpha" ≡ some (float 1)
unfolding get
get-copy_cuml_params_example =
    get-copy_cuml_params instance_0 other "alpha" (refl, (refl, (refl, tt)))

auto-ne : ◌≢◌ {A = Value ℕ} (str "eig") (str "auto")
auto-ne h = ground (arith, eq_iff "eig" "auto")

translated_auto : translate regression "solver" (str "auto") ≡ ok (str "eig")
unfolding translate supported_value mapped_value supported_values get
translated_auto = refl

clear-untranslated_example :
    get (clear {P = table_params} regression "solver" instance_0).1.cuml "solver" ≢ some (str "eig")
unfolding get
clear-untranslated_example =
    clear-untranslated regression instance_0 table-IsLawful "solver" "solver" (str "auto")
      (str "eig") refl solver-ne refl translated_auto auto-ne

alpha-ne : ◌≢◌ {A = String} "regParam" "alpha"
alpha-ne h = ground (arith, eq_iff "regParam" "alpha")

set_params-both_sides_example :
    set_params {P = table_params} regression
      (("regParam", float 7) ∷ ("alpha", float 8) ∷ [])
      instance_0
    ≡ (err value_error, instance_0)
unfolding get
set_params-both_sides_example =
    set_params-both_sides regression (("regParam", float 7) ∷ ("alpha", float 8) ∷ []) "regParam"
      "alpha" instance_0 refl alpha-ne refl refl

abbrev solver_values : Dict (Option String)
solver_values = ("auto", some "eig") ∷ ("normal", some "eig") ∷ ("l-bfgs", none) ∷ []

restricted :
    (set_cuml_value {P = table_params} regression "solver" (str "auto") instance_0).0 ≡ ok tt
unfolding set_cuml_value translate supported_value mapped_value supported_values get
restricted = refl

set_cuml_value-IsStored_example :
    IsStored "solver" solver_values
      (str "auto")
      instance_0
      (set_cuml_value regression "solver" (str "auto") instance_0).1
unfolding get
set_cuml_value-IsStored_example =
    set_cuml_value-IsStored regression "solver" solver_values (str "auto") instance_0 refl
      restricted

set_params-refused_example :
    (set_params {P = table_params} regression (("weightCol", str "w") ∷ []) instance_0).0 ≢ ok tt
unfolding get
set_params-refused_example =
    set_params-refused table-IsLawful "weightCol" regression (("weightCol", str "w") ∷ []) (str "w")
      instance_0 refl refl refl
