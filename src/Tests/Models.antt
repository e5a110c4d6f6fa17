-- ===== src/Tests/Models.antt =====
-- Forests and transforms, with concrete counterparts of what the code calls.
use spark_rapids_ml.Base.{
  ℕ, ◌≡◌, ◌≢◌, refl, arith, eq_iff, String, Bool, true, false, none, some, List, [], ◌∷◌, map,
}
use spark_rapids_ml.Py.{Result, ok}
use spark_rapids_ml.Py.Dict.{Dict, get, put, remove}
use spark_rapids_ml.Py.Value.{ℤ, pos, negsuc, Value, int, str, Floats}
use spark_rapids_ml.Utils.Partitions.{Codec, IsFaithful}
use spark_rapids_ml.Tree.Estimators.{estimators_per_worker, increment, increment_range}
use spark_rapids_ml.Tree.Fit.{rf_params}
use spark_rapids_ml.Tree.FitLaws.{rf_params-get}
use spark_rapids_ml.Core.Transform.{
  vectors, arrays, others, Dataset, rename, prepare_single, prepare, add_columns, transform,
  tmp_name, Target, structured,
}
use spark_rapids_ml.Core.TransformLaws.{transform-get, HasColumnsOf, added}

abbrev pub messages : {A : Type 0} → Codec A A
messages = record { dumps = λ a. a; loads = λ a. ok a }

pub messages-IsFaithful : {A : Type 0} → IsFaithful (messages {A = A})
messages-IsFaithful = record { loads-dumps = λ a. refl }

abbrev number_of : ℤ → ℕ
number_of (pos n) = n
number_of (negsuc n) = 0

abbrev pub numbers : Floats ℕ
numbers = record {
  is_zero = λ x. false;
  of_int = number_of;
  multiply = λ x y. x;
  one = 1;
  third = 0;
}

pub map-id : (fs : List (List ℕ)) → map (λ f. f) fs ≡ fs
map-id [] = refl
map-id (f ∷ fs) = rw (map-id fs) refl

abbrev pub forest_params : Dict (Value ℕ)
forest_params = ("n_estimators", int (pos 3)) ∷ ("max_features", str "auto") ∷ []

pub shares : estimators_per_worker 3 2 ≡ ok (2 ∷ 1 ∷ [])
unfolding estimators_per_worker increment_range increment
shares = refl

rf_params-get_example :
    (given : Dict (Value ℕ)) × (rf_params numbers true 3 forest_params ≡ ok given)
    × (get given "max_features" ≡ some (str "sqrt"))
unfolding get
rf_params-get_example =
    rf_params-get numbers true 3 forest_params (int (pos 3)) (str "auto") "max_features" refl refl

abbrev dataset : Dataset ℕ
dataset = ("id", others 1) ∷ ("features", vectors 2) ∷ []

abbrev predict : Dataset ℕ → List String → Bool → Result (ℕ × ℕ)
predict d names multi = ok (5, 6)

abbrev p_and_q : Result Target
p_and_q = ok (structured "p" (some "q"))

abbrev transformed : Dataset ℕ
transformed = ("id", others 1) ∷ ("features", arrays 2) ∷ ("p", others 5) ∷ ("q", vectors 6) ∷ []

transform_run :
    transform {F = ℕ} predict (λ r. 9) (some (str "features"), none) p_and_q dataset
    ≡ ok transformed
unfolding transform prepare prepare_single rename add_columns get put remove
transform_run = refl

tmp-ne-features : ◌≢◌ {A = String} tmp_name "features"
tmp-ne-features h = ground (arith, eq_iff tmp_name "features")

transform-get_example :
    (d' : Dataset ℕ) × (t : Target) × (res : ℕ × ℕ) × HasColumnsOf {F = ℕ}
      (some (str "features"), none)
      dataset
      d'
    × (p_and_q ≡ ok t)
    × (predict d' ("features" ∷ []) false ≡ ok res)
    × (get transformed "features" ≡ added t res.0 res.1 "features" (some (arrays 2)))
unfolding get
transform-get_example =
    transform-get {F = ℕ} predict (λ r. 9) (some (str "features"), none) p_and_q dataset transformed
      "features" tmp-ne-features transform_run
