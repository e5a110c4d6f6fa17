-- ===== src/Models/PcaLaws.antt =====
-- A PCA model's matrix, its transform, and its number of components.
use spark_rapids_ml.Base.{
  ℕ, zero, suc, ◌+◌, ◌*◌, ◌<◌, ◌≡◌, refl, sym, ap, ◌∙◌, String, true, false, Option, none, some,
  List, [], ◌∷◌, ◌++◌, arith, length, length-map, flatten, map, get_elem?, All,
  get_elem?-append_left, get_elem?-append_right,
}
use spark_rapids_ml.Py.{ok}
use spark_rapids_ml.Py.Dict.{get, has, put, get-put}
use spark_rapids_ml.Py.Value.{pos, int}
use spark_rapids_ml.Params.Spark.{SparkParams, IsLawful}
use spark_rapids_ml.Params.Class.{Signature}
use spark_rapids_ml.Params.Values.{Instance}
use spark_rapids_ml.Params.Set.{
  sets_both_sides, try_set_spark, set_matching, set_param, set_each, set_params,
}
use spark_rapids_ml.Algorithms.Classes.{pca_class}
use spark_rapids_ml.Models.Pca.{
  entry, pc, set_n_components, Projection, add_arrays, transformed_mean, transform_internal,
}

-- The `i`-th value of the `j`-th component, if there is one.
abbrev pub component_value : {F : Type 0} → Option (List F) → ℕ → Option F
component_value none i = none
component_value (some c) i = get_elem? c i

-- The matrix has one column for each component, and the entry in row `i` and column `j` is the
-- `i`-th value of the `j`-th component. Assumed: every component has as many values as the model
-- has columns, and `i` is one of these.
pub entry-pc :
    {F : Type 0} (components : List (List F)) (n_cols i j : ℕ)
    → All (λ c. length c ≡ n_cols) components
    → i < n_cols
    → entry (pc components n_cols) i j ≡ component_value (get_elem? components j) i
unfolding entry pc
entry-pc [] n_cols i j h lt = refl
entry-pc (c ∷ components) n_cols i zero (e, h) lt =
    ap (get_elem? (c ++ flatten components)) (omega arith)
    ∙ get_elem?-append_left c (flatten components) i (omega arith)
entry-pc (c ∷ components) n_cols i (suc j) (e, h) lt =
    get_elem?-append_right c (flatten components) (i + suc j * n_cols) (grind arith)
    ∙ ap (get_elem? (flatten components)) (grind arith)
    ∙ entry-pc components n_cols i j h lt

module _ {F : Type 0} (components : List (List F)) (n_cols : ℕ) where
  pub pc-num_rows : (pc components n_cols).num_rows ≡ n_cols
  unfolding pc
  pc-num_rows = refl

  pub pc-num_cols : (pc components n_cols).num_cols ≡ length components
  unfolding pc
  pc-num_cols = refl

  pub pc-is_transposed : (pc components n_cols).is_transposed ≡ false
  unfolding pc
  pc-is_transposed = refl

-- What is assumed of exact numbers, and of numpy and cuML on them.
pub record IsExact {F : Type 0} (A : Projection F) : Type 0 where
  pub zero_number : F
  pub sub : F → F → F
  pub mul : F → F → F
  pub add-zero : A.add zero_number zero_number ≡ zero_number
  -- (x - m) c + s + (m c + t) = x c + (s + t)
  pub mul-sub :
      (x m c s t : F)
      → A.add (A.add (mul (sub x m) c) s) (A.add (mul m c) t) ≡ A.add (mul x c) (A.add s t)

module _ {F : Type 0} (A : Projection F) (E : IsExact A) where
  unfoldable pub dot : List F → List F → F
  dot (x ∷ xs) (y ∷ ys) = A.add (E.mul x y) (dot xs ys)
  dot _ _ = E.zero_number

  unfoldable pub centred : List F → List F → List F
  centred (x ∷ xs) (m ∷ mean) = E.sub x m ∷ centred xs mean
  centred _ _ = []

  -- numpy multiplies with each component, and cuML first subtracts the mean.
  pub record Computes : Type 0 where
    pub matmul_lem :
        (x : List F) (components : List (List F))
        → A.matmul_transposed x components ≡ map (dot x) components
    pub cuml_transform_lem :
        (mean x : List F) (components : List (List F))
        → A.cuml_transform mean components x ≡ map (dot (centred x mean)) components

  dot-centred :
      (x mean c : List F)
      → length x ≡ length c
      → length mean ≡ length c
      → A.add (dot (centred x mean) c) (dot mean c) ≡ dot x c
  unfolding dot centred
  dot-centred [] [] [] p q = E.add-zero
  dot-centred [] (m ∷ mean) [] p q = absurd (omega arith)
  dot-centred (x ∷ xs) mean [] p q = absurd (omega arith)
  dot-centred [] mean (c ∷ cs) p q = absurd (omega arith)
  dot-centred (x ∷ xs) [] (c ∷ cs) p q = absurd (omega arith)
  dot-centred (x ∷ xs) (m ∷ mean) (c ∷ cs) p q =
      E.mul-sub x m c (dot (centred xs mean) cs) (dot mean cs)
      ∙ ap (A.add (E.mul x c)) (dot-centred xs mean cs (omega arith) (omega arith))

  add_arrays-dot :
      (x mean : List F) (components : List (List F))
      → All (λ c. length x ≡ length c) components
      → All (λ c. length mean ≡ length c) components
      → add_arrays A (map (dot (centred x mean)) components) (map (dot mean) components)
        ≡ map (dot x) components
  unfolding add_arrays
  add_arrays-dot x mean [] p q = refl
  add_arrays-dot x mean (c ∷ components) (p, ps) (q, qs) =
      rw (dot-centred x mean c p q, add_arrays-dot x mean components ps qs)

  transform_internal-centred :
      (mean : List F) (components rows : List (List F))
      → Computes
      → All (λ c. length mean ≡ length c) components
      → All (λ x. All (λ c. length x ≡ length c) components) rows
      → transform_internal A (A.cuml_transform mean components) (map (dot mean) components) rows
        ≡ map (λ x. map (dot x) components) rows
  unfolding transform_internal
  transform_internal-centred mean components [] K q p = refl
  transform_internal-centred mean components (x ∷ rows) K q (p, ps) = rw (
    K.cuml_transform_lem mean x components,
    add_arrays-dot x mean components p q,
    transform_internal-centred mean components rows K q ps,
  )

  module _ (f : F → F) where
    column_lengths :
        (x : List F) (components : List (List F))
        → All (λ c. length x ≡ length c) components
        → All (λ c. length x ≡ length c) (map (map f) components)
    column_lengths x [] h = tt
    column_lengths x (c ∷ components) (h, hs) =
        (h ∙ sym (length-map f c), column_lengths x components hs)

    row_lengths :
        (rows components : List (List F))
        → All (λ x. All (λ c. length x ≡ length c) components) rows
        → All (λ x. All (λ c. length x ≡ length c) (map (map f) components)) rows
    row_lengths [] components h = tt
    row_lengths (x ∷ rows) components (h, hs) =
        (column_lengths x components h, row_lengths rows components hs)

    mapped_lengths :
        (mean : List F) (components : List (List F))
        → All (λ c. length mean ≡ length c) components
        → All (λ c. length (map f mean) ≡ length c) (map (map f) components)
    mapped_lengths mean [] h = tt
    mapped_lengths mean (c ∷ components) (h, hs) =
        (length-map f mean ∙ h ∙ sym (length-map f c), mapped_lengths mean components hs)

  -- In exact arithmetic, a transform multiplies every row with each component, in the model's dtype,
  -- as Spark's PCA does: the mean that cuML's object subtracts is added back. The object is one with
  -- the model's mean and components in its dtype. Assumed: numpy and cuML compute what they are said
  -- to, and rows, mean and components have one length.
  pub transform_internal-dot :
      (astype : String → F → F) (dtype : String) (mean : List F) (components rows : List (List F))
      → Computes
      → All (λ c. length mean ≡ length c) components
      → All (λ x. All (λ c. length x ≡ length c) components) rows
      → transform_internal A
          (A.cuml_transform (map (astype dtype) mean) (map (map (astype dtype)) components))
          (transformed_mean A astype dtype mean components)
          rows
        ≡ map (λ x. map (dot x) (map (map (astype dtype)) components)) rows
  unfolding transformed_mean
  transform_internal-dot astype dtype mean components rows K q p =
      rw (K.matmul_lem (map (astype dtype) mean) (map (map (astype dtype)) components)) (
        transform_internal-centred (map (astype dtype) mean) (map (map (astype dtype)) components)
          rows K (mapped_lengths (astype dtype) mean components q)
          (row_lengths (astype dtype) rows components p))

module _ {F : Type 0} {P : SparkParams F} (L : IsLawful P) where
  -- If Spark accepts the number of components for `k`, the last step of a PCA model's constructor
  -- returns, cuML is given that number, and `k` is read as it, through its converter. Assumed: there is
  -- no Spark param of cuML's name, and the model's cuML params have it.
  pub set_n_components-IsSynced :
      {E : Type 0} (signature : Signature F) (components : List E) (s : Instance P)
      (spark : P.State)
      → P.has_param s.spark "n_components" ≡ false
      → has s.cuml "n_components" ≡ true
      → P.set s.spark "k" (int (pos (length components))) ≡ ok spark
      → (s' : Instance P) × (set_n_components (pca_class signature) components s ≡ (ok tt, s'))
        × (get s'.cuml "n_components" ≡ some (int (pos (length components))))
        × (P.get s'.spark "k" ≡ P.convert "k" (int (pos (length components))))
  unfolding set_n_components set_params set_each set_param set_matching try_set_spark
      sets_both_sides get
  set_n_components-IsSynced signature components s spark n h e = (
    record s { spark = spark; cuml = put s.cuml "n_components" (int (pos (length components))) },
    rw (n, h, e) refl,
    get-put s.cuml "n_components" "n_components" (int (pos (length components))),
    L.get-set s.spark spark "k" "k" (int (pos (length components))) e,
  )
