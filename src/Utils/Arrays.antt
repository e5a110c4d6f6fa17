-- ===== src/Utils/Arrays.antt =====
-- `_concat_and_free`. numpy is an interface.
use spark_rapids_ml.Base.{ℕ, ◌+◌, ◌≡◌, refl, List, [], ◌∷◌, map, flatten, All}
use spark_rapids_ml.Py.{Result, ok, err, index_error, bind, Exec}

pub data Order : Type 0 where
  c_order f_order : Order

pub record NumPy : Type 1 where
  pub Array : Type 0
  pub Row : Type 0
  pub Dtype : Type 0
  pub shape : Array → List ℕ
  pub dtype : Array → Dtype
  pub rows : Array → List Row
  -- np.empty(shape, order, dtype)
  pub empty : List ℕ → Order → Dtype → Array
  -- np.concatenate(arrays, out)
  pub concatenate : List Array → Array → Result Array

module _ (N : NumPy) where
  open N use {Array, Row, shape, dtype, rows, empty, concatenate}

  -- arr.shape[0]
  unfoldable pub first_dimension : List ℕ → Result ℕ
  first_dimension [] = err index_error
  first_dimension (n ∷ dims) = ok n

  unfoldable pub total_rows : List Array → Result ℕ
  unfolding first_dimension
  total_rows [] = ok 0
  total_rows (a ∷ arrays) =
      bind (first_dimension (shape a)) (λ n. bind (total_rows arrays) (λ m. ok (n + m)))

  concat_shape : ℕ → List ℕ → List ℕ
  concat_shape n (first ∷ cols ∷ dims) = n ∷ cols ∷ []
  concat_shape n dims = n ∷ []

  clear_on_success : List Array → Result Array → Result Array × List Array
  clear_on_success arrays (ok a) = (ok a, [])
  clear_on_success arrays (err e) = (err e, arrays)

  -- The state is the list, which is emptied.
  unfoldable pub concat_and_free : Order → Exec (List Array) Array
  unfolding concat_shape clear_on_success
  concat_and_free order [] = (err index_error, [])
  concat_and_free order (a ∷ arrays) = clear_on_success (a ∷ arrays) (
      bind (total_rows (a ∷ arrays))
        (λ n. concatenate (a ∷ arrays) (empty (concat_shape n (shape a)) order (dtype a))))

  -- Two-dimensional, with `cols` columns.
  abbrev pub HasColumns : ℕ → Array → Type 0
  HasColumns cols a = (n : ℕ) × (shape a ≡ n ∷ cols ∷ [])

  -- What the code relies on.
  pub record IsFaithful : Type 0 where
    pub shape-empty : (dims : List ℕ) (o : Order) (d : N.Dtype) → shape (empty dims o d) ≡ dims
    -- Arrays of one width are joined into an array of the right shape.
    pub concatenate_lem :
        (cols n : ℕ) (a : Array) (arrays : List Array) (out : Array)
        → All (HasColumns cols) (a ∷ arrays)
        → total_rows (a ∷ arrays) ≡ ok n
        → shape out ≡ n ∷ cols ∷ []
        → (b : Array) × (concatenate (a ∷ arrays) out ≡ ok b)
          × (shape b ≡ n ∷ cols ∷ [])
          × (rows b ≡ flatten (map rows (a ∷ arrays)))

  total_rows-HasColumns :
      (cols : ℕ) (arrays : List Array)
      → All (HasColumns cols) arrays
      → (n : ℕ) × (total_rows arrays ≡ ok n)
  unfolding total_rows
  total_rows-HasColumns cols [] h = (0, refl)
  total_rows-HasColumns cols (a ∷ arrays) ((k, e), h) =
      let (n, p) = total_rows-HasColumns cols arrays h in (k + n, rw (e, p))

  -- A list of two-dimensional arrays of one width, with at least one array, is joined into an array
  -- of that width that has the rows of all of them in order, and the list is left empty.
  pub concat_and_free-rows :
      (order : Order) (cols : ℕ) (a : Array) (arrays : List Array)
      → IsFaithful
      → All (HasColumns cols) (a ∷ arrays)
      → (b : Array) × (concat_and_free order (a ∷ arrays) ≡ (ok b, []))
        × (rows b ≡ flatten (map rows (a ∷ arrays)))
  unfolding concat_and_free
  concat_and_free-rows order cols a arrays F h =
      let (n, p) = total_rows-HasColumns cols (a ∷ arrays) h in
      let out = empty (n ∷ cols ∷ []) order (dtype a) in
      let (b, q, _, r) = F.concatenate_lem cols n a arrays out h p (F.shape-empty _ _ _) in
      (b, rw (p, h.0.1, q), r)
