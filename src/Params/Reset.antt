-- ===== src/Params/Reset.antt =====
-- What `initialize_cuml_params`, `clear` and `_copy_cuml_params` leave in the cuML params.
use spark_rapids_ml.Base.{
  String, ◌≡◌, refl, ◌≢◌, none, some, [], ◌∷◌, arith, str_eq, eq_iff, eq_refl, if◌then◌else◌,
}
use spark_rapids_ml.Py.{ok}
use spark_rapids_ml.Py.Dict.{Dict, get, has, put, get-put, NodupKeys, str_eq-ne}
use spark_rapids_ml.Py.Value.{Value}
use spark_rapids_ml.Params.Spark.{SparkParams, IsLawful}
use spark_rapids_ml.Params.Class.{CumlClass}
use spark_rapids_ml.Params.Values.{Instance, translate}
use spark_rapids_ml.Params.Lifecycle.{clear, copy_known, copy_cuml_params}

copy_known-absent {ℓ} :
    {V : Type ℓ} (from to : Dict V) (k : String)
    → get from k ≡ none
    → get (copy_known from to) k ≡ get to k
unfolding copy_known get
copy_known-absent [] to k h = refl
copy_known-absent ((j, v) ∷ from) to k h = ground (
  arith,
  eq_iff j k,
  get-put to j k v,
  copy_known-absent from (if has to j then put to j v else to) k,
)

get-copy_known {ℓ} :
    {V : Type ℓ} (from to : Dict V) (k : String)
    → NodupKeys from
    → get (copy_known from to) k
      ≡ (if has to k then elim (get from k) [ none ↦ get to k | some v ↦ some v ] else none)
unfolding copy_known get
get-copy_known [] to k h = ground arith
get-copy_known ((j, v) ∷ from) to k (fresh, h) = ground (
  arith,
  eq_iff j k,
  get-put to j k v,
  copy_known-absent from (if has to j then put to j v else to) k,
  get-copy_known from (if has to j then put to j v else to) k h,
)

-- After `_copy_cuml_params`, the other instance has the cuML params that it had before and no
-- others. One that this instance has too takes this instance's value, and any other keeps its own.
-- Assumed: no cuML param of this instance stands twice.
pub get-copy_cuml_params :
    {F : Type 0} {P Q : SparkParams F} (s : Instance P) (to : Instance Q) (k : String)
    → NodupKeys s.cuml
    → get (copy_cuml_params s to).cuml k ≡ (
        if has to.cuml k
        then elim (get s.cuml k) [ none ↦ get to.cuml k | some v ↦ some v ]
        else none)
unfolding copy_cuml_params
get-copy_cuml_params s to k h = get-copy_known s.cuml to.cuml k h

module _ {F : Type 0} {P : SparkParams F} (C : CumlClass F) (s : Instance P) where
  -- After `clear` of a param that is mapped to a cuML parameter, the cuML parameter holds the
  -- param's default value as it is, without the value mapping of the class, and no other cuML
  -- parameter has changed.
  pub get-clear_cuml :
      IsLawful P
      → (k c d : String) (v : Value F) → get C.param_mapping k ≡ some (some c)
      → c ≢ ""
      → P.default s.spark k ≡ ok v
      → get (clear C k s).1.cuml d ≡ (if str_eq c d then some v else get s.cuml d)
  unfolding clear
  get-clear_cuml L k c d v e n h =
      rw (e, clear, str_eq-ne c "" n, L.get-clear, eq_refl, h) (get-put s.cuml c d v)

  -- Where the class translates a param's default value to another value, `clear` does not give the
  -- cuML parameter the translated value, which `initialize_cuml_params` and `set_params` give it.
  pub clear-untranslated :
      IsLawful P
      → (k c : String) (v w : Value F) → get C.param_mapping k ≡ some (some c)
      → c ≢ ""
      → P.default s.spark k ≡ ok v
      → translate C c v ≡ ok w
      → w ≢ v
      → get (clear C k s).1.cuml c ≢ some w
  clear-untranslated L k c v w e n h t wv p =
      wv (ground (arith, eq_refl c, get-clear_cuml L k c c v e n h))
