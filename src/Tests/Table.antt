-- ===== src/Tests/Table.antt =====
-- A table of params that behaves as Spark documents it.
use spark_rapids_ml.Base.{
  ℕ, String, ◌≡◌, refl, Bool, true, false, ◌||◌, Option, none, some, arith, eq_iff, if◌then◌else◌,
}
use spark_rapids_ml.Py.{Result, ok, err, attribute_error, key_error, ok-injective}
use spark_rapids_ml.Py.Dict.{Dict, get, has, put, remove, update, get-put, get-remove}
use spark_rapids_ml.Py.Value.{Value}
use spark_rapids_ml.Params.Spark.{SparkParams, IsLawful}

-- The declared params with their defaults, and the values that were set.
pub record Table : Type 0 where
  pub declared : Dict (Option (Value ℕ))
  pub values : Dict (Value ℕ)

abbrev default_of : Option (Option (Value ℕ)) → Result (Value ℕ)
default_of none = err attribute_error
default_of (some none) = err key_error
default_of (some (some v)) = ok v

abbrev has_value : Option (Option (Value ℕ)) → Bool
has_value (some (some v)) = true
has_value _ = false

abbrev value_of : Option (Value ℕ) → Result (Value ℕ) → Result (Value ℕ)
value_of none d = d
value_of (some v) d = ok v

abbrev pub table_params : SparkParams ℕ
table_params = record {
  State = Table;
  has_param = λ s k. has s.declared k;
  has_default = λ s k. has_value (get s.declared k);
  is_set = λ s k. has s.values k;
  is_defined = λ s k. has s.values k || has_value (get s.declared k);
  get = λ s k. value_of (get s.values k) (default_of (get s.declared k));
  default = λ s k. default_of (get s.declared k);
  convert = λ k v. ok v;
  set = λ s k v.
      if has s.declared k
      then ok (record { declared = s.declared; values = put s.values k v })
      else err attribute_error;
  clear = λ s k. record { declared = s.declared; values = remove s.values k };
  copy_values = λ s t. record { declared = t.declared; values = update t.values s.values };
}

with_value : Table → String → Value ℕ → Table
with_value s k v = record { declared = s.declared; values = put s.values k v }

set-with_value :
    (b : Bool) (s s' t : Table)
    → ◌≡◌ {A = Result Table} (if b then ok t else err attribute_error) (ok s')
    → t ≡ s'
set-with_value true s s' t h = ok-injective h
set-with_value false s s' t h = cc

pub table-IsLawful : IsLawful table_params
table-IsLawful = record {
  has_param-set = λ s s' k j v h. rw (← set-with_value (has s.declared k) s s' _ h) refl;
  get-set = λ s s' k j v h.
      rw (← set-with_value (has s.declared k) s s' _ h)
        (ground (arith, eq_iff k j, get-put s.values k j v));
  get-clear = λ s k j. ground (arith, eq_iff k j, get-remove s.values k j);
  is_defined-set = λ s s' k j v h.
      rw (← set-with_value (has s.declared k) s s' _ h)
        (ground (arith, eq_iff k j, get-put s.values k j v));
}
