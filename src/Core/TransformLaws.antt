-- ===== src/Core/TransformLaws.antt =====
-- The columns of a transformed dataset.
use spark_rapids_ml.Base.{
  String, ◌≡◌, ◌≢◌, refl, sym, ap, ◌∙◌, Bool, true, false, Option, none, some, List, [], ◌∷◌, arith,
  str_eq, eq_iff, if◌then◌else◌,
}
use spark_rapids_ml.Py.{Result, ok, bind-eq-ok, ok-injective}
use spark_rapids_ml.Py.Dict.{get, put, get-put, get-remove}
use spark_rapids_ml.Py.Value.{Value, str, strs}
use spark_rapids_ml.Core.Transform.{
  Content, vectors, arrays, others, Dataset, tmp_name, struct_name, Prepared, rename,
  prepare_single, prepare, Predict, Target, single, structured, add_columns, transform,
}

-- The columns that are given to the model, and whether they are many.
abbrev pub names_of : {F : Type 0} → Option (Value F) × Option (Value F) → List String
names_of (some (str c), _) = c ∷ []
names_of (none, some (strs names)) = names
names_of _ = []

abbrev pub are_many : {F : Type 0} → Option (Value F) × Option (Value F) → Bool
are_many (none, _) = true
are_many (some _, _) = false

module _ {C : Type 0} where
  get-rename : (d : Dataset C) (a b k : String) → a ≢ k → b ≢ k → get (rename d a b) k ≡ get d k
  unfolding rename get
  get-rename [] a b k p q = refl
  get-rename ((j, c) ∷ d) a b k p q =
      ground (arith, eq_iff j a, eq_iff b k, eq_iff j k, get-rename d a b k)

  -- A single input column is there as an array, if it was a vector.
  abbrev pub as_array : Option (Content C) → Option (Content C)
  as_array (some (vectors x)) = some (arrays x)
  as_array o = o

  -- What a prepared dataset has under the name `k`, where `o` was there before.
  abbrev pub read_as :
      {F : Type 0}
      → Option (Value F) × Option (Value F)
      → String
      → Option (Content C)
      → Option (Content C)
  read_as (some (str c), _) k o = if str_eq c k then as_array o else o
  read_as _ k o = o

  get-prepare_single :
      (d : Dataset C) (c k : String) (o : Option (Content C)) (p : Prepared C)
      → get d c ≡ o
      → tmp_name ≢ k
      → prepare_single d c o ≡ ok p
      → get p.dataset k ≡ (if str_eq c k then as_array (get d k) else get d k)
  unfolding prepare_single
  get-prepare_single d c k none p e n h = cc
  get-prepare_single d c k (some (vectors x)) p e n h = rw (← ok-injective h) (
      ground (
        arith,
        eq_iff c k,
        eq_iff tmp_name k,
        get-remove (put (rename d c tmp_name) c (arrays x)) tmp_name k,
        get-put (rename d c tmp_name) c k (arrays x),
        get-rename d c tmp_name k,
      ))
  get-prepare_single d c k (some (arrays x)) p e n h =
      rw (← ok-injective h) (ground (arith, eq_iff c k))
  get-prepare_single d c k (some (others x)) p e n h = cc

  pub get-prepare :
      {F : Type 0} (d : Dataset C) (columns : Option (Value F) × Option (Value F)) (k : String)
      (p : Prepared C)
      → tmp_name ≢ k
      → prepare d columns ≡ ok p
      → get p.dataset k ≡ read_as columns k (get d k)
  unfolding prepare
  get-prepare d (some (str c), rest) k p n h = get-prepare_single d c k (get d c) p refl n h
  get-prepare d (none, some (strs names)) k p n h = rw (← ok-injective h) refl
  get-prepare d (some _, rest) k p n h = cc
  get-prepare d (none, some _) k p n h = cc
  get-prepare d (none, none) k p n h = cc

  prepare_single-names :
      (d : Dataset C) (c : String) (o : Option (Content C)) (p : Prepared C)
      → prepare_single d c o ≡ ok p
      → (p.select_cols ≡ c ∷ []) × (p.input_is_multi_cols ≡ false)
  unfolding prepare_single
  prepare_single-names d c none p h = cc
  prepare_single-names d c (some (vectors x)) p h = rw (← ok-injective h) (refl, refl)
  prepare_single-names d c (some (arrays x)) p h = rw (← ok-injective h) (refl, refl)
  prepare_single-names d c (some (others x)) p h = cc

  pub prepare-names :
      {F : Type 0} (d : Dataset C) (columns : Option (Value F) × Option (Value F)) (p : Prepared C)
      → prepare d columns ≡ ok p
      → (p.select_cols ≡ names_of columns) × (p.input_is_multi_cols ≡ are_many columns)
  unfolding prepare
  prepare-names d (some (str c), rest) p h = prepare_single-names d c (get d c) p h
  prepare-names d (none, some (strs names)) p h = rw (← ok-injective h) (refl, refl)
  prepare-names d (some _, rest) p h = cc
  prepare-names d (none, some _) p h = cc
  prepare-names d (none, none) p h = cc

  -- The columns of a dataset, where a single input column of vectors has become one of arrays. The
  -- name that this column has in between is left out.
  abbrev pub HasColumnsOf :
      {F : Type 0} → Option (Value F) × Option (Value F) → Dataset C → Dataset C → Type 0
  HasColumnsOf columns d d' = (k : String) → tmp_name ≢ k → get d' k ≡ read_as columns k (get d k)

  -- What is under the name `k` once the columns are added to a dataset that has `o` there.
  abbrev pub added : Target → C → C → String → Option (Content C) → Option (Content C)
  added (single pred_name) prediction probability k o =
      if str_eq pred_name k then some (others prediction) else o
  added (structured pred_name none) prediction probability k o =
      if str_eq struct_name k
      then none
      else if str_eq pred_name k
      then some (others prediction)
      else o
  added (structured pred_name (some probability_col)) prediction probability k o =
      if str_eq struct_name k
      then none
      else if str_eq probability_col k
      then some (vectors probability)
      else if str_eq pred_name k
      then some (others prediction)
      else o

  pub get-add_columns :
      (d : Dataset C) (t : Target) (structs prediction probability : C) (k : String)
      → get (add_columns d t structs prediction probability) k
        ≡ added t prediction probability k (get d k)
  unfolding add_columns
  get-add_columns d (single pred_name) structs prediction probability k =
      get-put d pred_name k (others prediction)
  get-add_columns d (structured pred_name none) structs prediction probability k = ground (
    arith,
    get-remove (put (put d struct_name (others structs)) pred_name (others prediction)) struct_name
        k,
    get-put (put d struct_name (others structs)) pred_name k (others prediction),
    get-put d struct_name k (others structs),
  )
  get-add_columns d (structured pred_name (some pc)) structs prediction probability k = ground (
    arith,
    get-remove
        (put (put (put d struct_name (others structs)) pred_name (others prediction)) pc
          (vectors probability))
        struct_name k,
    get-put (put (put d struct_name (others structs)) pred_name (others prediction)) pc k
        (vectors probability),
    get-put (put d struct_name (others structs)) pred_name k (others prediction),
    get-put d struct_name k (others structs),
  )

  -- If a transform returns, then the model has been given a dataset that has the columns of this one,
  -- but for a single input column of vectors, which has become one of arrays, with the names of the
  -- input columns, and whether they are many; and it has answered. The prediction column holds its
  -- predictions, and the probability column, if there is one, the probabilities as vectors. Every
  -- other column of the dataset is there as it was, but a single input column of vectors has become
  -- a column of arrays. The column of structs is not there. Assumed: the name that is looked up is not
  -- the one that the input column has in between.
  pub transform-get :
      {F : Type 0} (predict : Predict C) (struct : C × C → C)
      (columns : Option (Value F) × Option (Value F)) (target : Result Target) (d out : Dataset C)
      (k : String)
      → tmp_name ≢ k
      → transform predict struct columns target d ≡ ok out
      → (d' : Dataset C) × (t : Target) × (res : C × C) × HasColumnsOf columns d d'
        × (target ≡ ok t)
        × (predict d' (names_of columns) (are_many columns) ≡ ok res)
        × (get out k ≡ added t res.0 res.1 k (read_as columns k (get d k)))
  unfolding transform
  transform-get predict struct columns target d out k n h =
      let (p, e, h₁) = bind-eq-ok (prepare d columns) _ h in
      let (t, e', h₂) = bind-eq-ok target _ h₁ in
      let (res, q, h₃) = bind-eq-ok (predict p.dataset p.select_cols p.input_is_multi_cols) _ h₂ in
      let (names, many) = prepare-names d columns p e in
      (
        p.dataset,
        t,
        res,
        λ j m. get-prepare d columns j p m e,
        e',
        ap (λ l. predict p.dataset l (are_many columns)) (sym names)
            ∙ ap (predict p.dataset p.select_cols) (sym many)
            ∙ q,
        ap (λ e. get e k) (sym (ok-injective h₃))
            ∙ get-add_columns p.dataset t (struct res) res.0 res.1 k
            ∙ ap (added t res.0 res.1 k) (get-prepare d columns k p n e),
      )
