-- ===== src/Params/Class.antt =====
-- The class methods of `_CumlClass`: what an algorithm declares about its cuML counterpart.
use spark_rapids_ml.Base.{
  String, ◌≡◌, ◌≢◌, Bool, true, false, not, ◌&&◌, ◌||◌, Option, none, some, List, [], ◌∷◌, arith,
  str_eq, eq_iff, if◌then◌else◌,
}
use spark_rapids_ml.Py.Dict.{Dict, get, update, contains}
use spark_rapids_ml.Py.Value.{Value}

-- Spark name to cuML name; `some ""` is a param that is ignored and `none` one that is refused.
abbrev pub Mapping : Type 0
Mapping = Dict (Option String)

-- A constructor's parameters with their defaults, as `inspect.signature` lists them.
abbrev pub Signature : Type 0 → Type 0
Signature F = List (String × Option (Value F))

pub record CumlClass (F : Type 0) : Type 0 where
  pub cuml_cls : List (Signature F)
  pub param_excludes : List String
  pub param_mapping : Mapping
  pub param_value_mapping : Dict (Dict (Option String))

module _ {F : Type 0} where
  -- utils._get_default_params_from_func
  unfoldable pub default_params_from_func : Signature F → List String → Dict (Value F)
  default_params_from_func [] unsupported = []
  default_params_from_func ((name, none) ∷ sig) unsupported =
      default_params_from_func sig unsupported
  default_params_from_func ((name, some v) ∷ sig) unsupported =
      let rest = default_params_from_func sig unsupported in
      if contains unsupported name then rest else (name, v) ∷ rest

  -- the loop of `_get_cuml_params_default`
  unfoldable pub merge_defaults : List (Signature F) → List String → Dict (Value F) → Dict (Value F)
  merge_defaults [] excludes params = params
  merge_defaults (cls ∷ rest) excludes params =
      merge_defaults rest excludes (update params (default_params_from_func cls excludes))

  unfoldable pub get_cuml_params_default : CumlClass F → Dict (Value F)
  unfolding merge_defaults
  get_cuml_params_default C = merge_defaults C.cuml_cls C.param_excludes []

-- Some Spark param is mapped to the cuML parameter `c`.
unfoldable pub has_target : Mapping → String → Bool
has_target [] c = false
has_target ((k, none) ∷ m) c = has_target m c
has_target ((k, some d) ∷ m) c = str_eq d c || has_target m c

-- No two Spark params are mapped to one cuML parameter.
unfoldable pub distinct_targets : Mapping → Bool
unfolding has_target
distinct_targets [] = true
distinct_targets ((k, none) ∷ m) = distinct_targets m
distinct_targets ((k, some c) ∷ m) = (str_eq c "" || not (has_target m c)) && distinct_targets m

has_target-get : (m : Mapping) (k c : String) → get m k ≡ some (some c) → has_target m c ≡ true
unfolding has_target get
has_target-get [] k c h = cc
has_target-get ((j, none) ∷ m) k c h = ground (arith, has_target-get m k c)
has_target-get ((j, some d) ∷ m) k c h = ground (arith, eq_iff d c, has_target-get m k c)

-- The target of a Spark param determines it.
pub get-injective :
    (m : Mapping) (j k c : String)
    → distinct_targets m ≡ true
    → get m j ≡ some (some c)
    → get m k ≡ some (some c)
    → c ≢ ""
    → j ≡ k
unfolding distinct_targets get
get-injective [] j k c h p q n = cc
get-injective ((i, none) ∷ m) j k c h p q n =
    ground (arith, eq_iff i j, eq_iff i k, get-injective m j k c)
get-injective ((i, some d) ∷ m) j k c h p q n = ground (
  arith,
  eq_iff i j,
  eq_iff i k,
  eq_iff d "",
  eq_iff d c,
  has_target-get m j c,
  has_target-get m k c,
  get-injective m j k c,
)
