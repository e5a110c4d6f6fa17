-- ===== src/Regression/FitLaws.antt =====
-- Which solver a linear regression uses, and with which parameters.
use spark_rapids_ml.Base.{
  ℕ, zero, suc, String, ◌≡◌, refl, ◌∙◌, Bool, true, false, Option, none, some, List, [], ◌∷◌, arith,
  Bool-cases, inl, inr, ◌==◌, ◌&&◌, ◌||◌, str_eq, if◌then◌else◌,
}
use spark_rapids_ml.Py.{ok, err, runtime_error}
use spark_rapids_ml.Py.Dict.{Dict, get, put, restrict, contains, get-put, get-restrict}
use spark_rapids_ml.Py.Value.{
  pos, negsuc, Value, none_value, bool, int, float, str, strs, Floats, equals_zero,
}
use spark_rapids_ml.Core.Features.{Selection}
use spark_rapids_ml.Regression.Fit.{
  Solver, linear_regression_mg, ridge_mg, cd_mg, lookup, supported_params, scale, pre_process_data,
  choose_solver, solver_params,
}

pub lookup-some {ℓ} :
    {V : Type ℓ} (d : Dict V) (k : String) (v : V) → get d k ≡ some v → lookup d k ≡ ok v
unfolding lookup
lookup-some d k v e = rw (e, lookup)

-- The solver for a regularisation parameter and an L1 ratio, by whether each is 0: ordinary least
-- squares, ridge regression, or coordinate descent.
abbrev pub expected_solver : Bool → Bool → Solver
expected_solver true _ = linear_regression_mg
expected_solver false true = ridge_mg
expected_solver false false = cd_mg

abbrev pub not_cd : Solver → Bool
not_cd cd_mg = false
not_cd _ = true

-- The parameters before the filter: for ridge regression, `alpha` is replaced.
abbrev pub expected_params {ℓ} : {V : Type ℓ} → Solver → Dict V → V → Dict V
expected_params ridge_mg params w = put params "alpha" w
expected_params _ params w = params

abbrev given_params {ℓ} : {V : Type ℓ} → Solver → Dict V → V → Dict V
given_params solver params w = restrict (expected_params solver params w) (supported_params solver)

-- The names that every solver's constructor has, and those of the single solvers.
abbrev shared_names : List String
shared_names = "verbose" ∷ "fit_intercept" ∷ "normalize" ∷ []

abbrev own_names : Solver → List String
own_names linear_regression_mg = "algorithm" ∷ []
own_names ridge_mg = "alpha" ∷ "solver" ∷ []
own_names cd_mg = "alpha" ∷ "l1_ratio" ∷ "loss" ∷ "tol" ∷ "max_iter" ∷ "shuffle" ∷ []

abbrev accepts : Solver → String → Bool
accepts solver k = contains (own_names solver) k || contains shared_names k

-- What a solver's constructor has to be given under a name: nothing, where it has no parameter of
-- this name, `w` for the `alpha` of ridge regression, and else what the estimator has.
abbrev pub expected_value {ℓ} : {V : Type ℓ} → Solver → Dict V → V → String → Option V
expected_value ridge_mg params w k =
    if str_eq "alpha" k then some w else if accepts ridge_mg k then get params k else none
expected_value solver params w k = if accepts solver k then get params k else none

contains-supported_params :
    (solver : Solver) (k : String) → contains (supported_params solver) k ≡ accepts solver k
unfolding supported_params
contains-supported_params linear_regression_mg k = ground arith
contains-supported_params ridge_mg k = ground arith
contains-supported_params cd_mg k = ground arith

get-given_params {ℓ} :
    {V : Type ℓ} (solver : Solver) (params : Dict V) (w : V) (k : String)
    → get (given_params solver params w) k ≡ expected_value solver params w k
get-given_params linear_regression_mg params w k =
    get-restrict params (supported_params linear_regression_mg) k
    ∙ rw (contains-supported_params linear_regression_mg k) refl
get-given_params cd_mg params w k =
    get-restrict params (supported_params cd_mg) k ∙ rw (contains-supported_params cd_mg k) refl
get-given_params ridge_mg params w k =
    get-restrict (put params "alpha" w) (supported_params ridge_mg) k
    ∙ rw (contains-supported_params ridge_mg k, get-put params "alpha" k w) (ground arith)

module _ {F : Type 0} (O : Floats F) where
  -- Whether a value is zero, and the float that it is multiplied as.
  abbrev pub vanishes : Value F → Bool
  vanishes (bool true) = false
  vanishes (bool false) = true
  vanishes (int (pos n)) = n == 0
  vanishes (int (negsuc n)) = false
  vanishes (float x) = O.is_zero x
  vanishes none_value = false
  vanishes (str s) = false
  vanishes (strs l) = false

  abbrev pub real_of : Value F → Option F
  real_of (bool true) = some (O.of_int (pos 1))
  real_of (bool false) = some (O.of_int (pos 0))
  real_of (int n) = some (O.of_int n)
  real_of (float x) = some x
  real_of none_value = none
  real_of (str s) = none
  real_of (strs l) = none

  equals_zero-vanishes : (v : Value F) → equals_zero O v ≡ vanishes v
  equals_zero-vanishes (bool true) = refl
  equals_zero-vanishes (bool false) = refl
  equals_zero-vanishes (int (pos zero)) = refl
  equals_zero-vanishes (int (pos (suc n))) = ground arith
  equals_zero-vanishes (int (negsuc n)) = refl
  equals_zero-vanishes (float x) = refl
  equals_zero-vanishes none_value = refl
  equals_zero-vanishes (str s) = refl
  equals_zero-vanishes (strs l) = refl

  -- The product of a value and a row count.
  abbrev pub product : F → ℕ → Value F
  product x m = float (O.multiply x (O.of_int (pos m)))

  scale-product :
      (v : Value F) (m : ℕ) (x : F) → real_of v ≡ some x → scale O v m ≡ ok (product x m)
  unfolding scale
  scale-product (bool true) m x e = cc
  scale-product (bool false) m x e = cc
  scale-product (int n) m x e = cc
  scale-product (float y) m x e = cc
  scale-product none_value m x e = cc
  scale-product (str s) m x e = cc
  scale-product (strs l) m x e = cc

  -- The solver that a regularisation parameter and an L1 ratio choose.
  abbrev pub solver_for : Value F → Value F → Solver
  solver_for a r = expected_solver (vanishes a) (vanishes r)

  choose_solver-expected :
      (params : Dict (Value F)) (m : ℕ) (a r w : Value F)
      → get params "alpha" ≡ some a
      → get params "l1_ratio" ≡ some r
      → scale O a m ≡ ok w
      → choose_solver O params m ≡ ok (solver_for a r, expected_params (solver_for a r) params w)
  unfolding choose_solver
  choose_solver-expected params m a r w p q s =
      rw
        (
          lookup-some params "alpha" a p,
          lookup-some params "l1_ratio" r q,
          s,
          equals_zero-vanishes a,
          equals_zero-vanishes r,
        )
        (elim (Bool-cases (vanishes a)) [
          | inl x ↦ rw x refl
          | inr x ↦ rw x (elim (Bool-cases (vanishes r)) [ inl y ↦ rw y refl | inr y ↦ rw y refl ])
        ])

  -- The solver, and each of its parameters.
  pub solver_params-given :
      (params : Dict (Value F)) (m : ℕ) (a r : Value F) (x : F)
      → get params "alpha" ≡ some a
      → get params "l1_ratio" ≡ some r
      → real_of a ≡ some x
      → (given : Dict (Value F)) × (solver_params O params m ≡ ok (solver_for a r, given))
        × ((k : String) → get given k ≡ expected_value (solver_for a r) params (product x m) k)
  unfolding solver_params
  solver_params-given params m a r x p q e = (
    given_params (solver_for a r) params (product x m),
    rw (choose_solver-expected params m a r (product x m) p q (scale-product a m x e)) refl,
    get-given_params (solver_for a r) params (product x m),
  )

-- Training data with one column is refused exactly where ordinary least squares or ridge regression
-- is chosen for the training, whatever the number of rows; any other data passes as it is. Assumed:
-- a solver is chosen, so that the parameters for it are there.
pub pre_process_data-one_column :
    {F : Type 0} (O : Floats F) (params : Dict (Value F)) (s : Selection) (m : ℕ) (solver : Solver)
    (given : Dict (Value F))
    → choose_solver O params m ≡ ok (solver, given)
    → pre_process_data O params s
      ≡ (if s.dimension == 1 && not_cd solver then err runtime_error else ok s)
unfolding pre_process_data choose_solver
pre_process_data-one_column O params s m solver given h = ground arith
