-- ===== src/Py/Dict.antt =====
-- Python's `dict` with string keys, in insertion order.
use spark_rapids_ml.Base.{
  String, ◌≡◌, ◌≢◌, refl, Bool, true, false, Option, none, some, ◌⊎◌, List, [], ◌∷◌, arith, str_eq,
  eq_iff, if◌then◌else◌,
}

abbrev pub Dict {ℓ} : Type ℓ → Type ℓ
Dict V = List (String × V)

pub str_eq-ne : (x y : String) → x ≢ y → str_eq x y ≡ false
str_eq-ne x y n = ground (arith, eq_iff x y)

-- x in l
abbrev pub contains : List String → String → Bool
contains [] k = false
contains (x ∷ l) k = if str_eq x k then true else contains l k

module _ {ℓ} {V : Type ℓ} where
  -- d.get(k)
  unfoldable pub get : Dict V → String → Option V
  get [] k = none
  get ((j, v) ∷ d) k = if str_eq j k then some v else get d k

  -- k in d
  abbrev pub has : Dict V → String → Bool
  has d k = elim (get d k) [ none ↦ false | some _ ↦ true ]

  -- d[k] = v
  unfoldable pub put : Dict V → String → V → Dict V
  put [] k v = (k, v) ∷ []
  put ((j, w) ∷ d) k v = if str_eq j k then (j, v) ∷ d else (j, w) ∷ put d k v

  -- d.pop(k, None), where a key stands at most once
  unfoldable pub remove : Dict V → String → Dict V
  remove [] k = []
  remove ((j, w) ∷ d) k = let rest = remove d k in if str_eq j k then rest else (j, w) ∷ rest

  -- d.update(e)
  unfoldable pub update : Dict V → Dict V → Dict V
  update d [] = d
  update d ((k, v) ∷ e) = update (put d k v) e

  -- {k: v for k, v in d.items() if k in l}
  unfoldable pub restrict : Dict V → List String → Dict V
  restrict [] l = []
  restrict ((k, v) ∷ d) l = let rest = restrict d l in if contains l k then (k, v) ∷ rest else rest

  -- No key stands twice.
  abbrev pub NodupKeys : Dict V → Type ℓ
  NodupKeys [] = Unit
  NodupKeys ((k, v) ∷ d) = (get d k ≡ none) × NodupKeys d

  pub get-put :
      (d : Dict V) (k j : String) (v : V)
      → get (put d k v) j ≡ (if str_eq k j then some v else get d j)
  unfolding get put
  get-put [] k j v = refl
  get-put ((i, w) ∷ d) k j v = ground (arith, eq_iff k j, eq_iff i k, eq_iff i j, get-put d k j v)

  pub get-remove :
      (d : Dict V) (k j : String) → get (remove d k) j ≡ (if str_eq k j then none else get d j)
  unfolding get remove
  get-remove [] k j = ground arith
  get-remove ((i, w) ∷ d) k j = ground (arith, eq_iff k j, eq_iff i k, eq_iff i j, get-remove d k j)

  pub get-restrict :
      (d : Dict V) (l : List String) (j : String)
      → get (restrict d l) j ≡ (if contains l j then get d j else none)
  unfolding get restrict
  get-restrict [] l j = ground arith
  get-restrict ((i, w) ∷ d) l j = ground (arith, eq_iff i j, get-restrict d l j)

  get-update_absent : (d e : Dict V) (j : String) → get e j ≡ none → get (update d e) j ≡ get d j
  unfolding get update
  get-update_absent d [] j h = refl
  get-update_absent d ((i, w) ∷ e) j h =
      ground (arith, eq_iff i j, get-put d i j w, get-update_absent (put d i w) e j)

  -- The entries of `e` win over those of `d`.
  pub get-update :
      (d e : Dict V) (j : String)
      → NodupKeys e
      → get (update d e) j ≡ elim (get e j) [ none ↦ get d j | some v ↦ some v ]
  unfolding get update
  get-update d [] j h = refl
  get-update d ((i, w) ∷ e) j (fresh, h) = ground (
    arith,
    eq_iff i j,
    get-put d i j w,
    get-update_absent (put d i w) e j,
    get-update (put d i w) e j h,
  )

  pub put-NodupKeys : (d : Dict V) (k : String) (v : V) → NodupKeys d → NodupKeys (put d k v)
  unfolding get put
  put-NodupKeys [] k v h = (refl, tt)
  put-NodupKeys ((i, w) ∷ d) k v (fresh, h) =
      ground (arith, eq_iff i k, eq_iff k i, get-put d k i v, put-NodupKeys d k v h)

pub get-cons_cases {ℓ} :
    {V : Type ℓ} (i j : String) (v w : V) (d : Dict V)
    → get ((i, v) ∷ d) j ≡ some w
    → ((i ≡ j) × (v ≡ w)) ⊎ ((i ≢ j) × (get d j ≡ some w))
unfolding get
get-cons_cases i j v w d h = ground (arith, eq_iff i j)

pub none-ne-some {ℓ} : {V : Type ℓ} (k : String) (v : V) → get [] k ≢ some v
unfolding get
none-ne-some k v h = cc
