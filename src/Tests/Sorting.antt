-- ===== src/Tests/Sorting.antt =====
-- Spark's spreading and sorting at concrete functions: one worker with one batch, and insertion.
use mathlib.Core.List.{append-nil}
use mathlib.Core.List.Permᴰ
use spark_rapids_ml.Base.{
  ℕ, ◌≡◌, ◌≤◌, refl, String, List, [], ◌∷◌, ◌++◌, map, arith, ltb, if◌then◌else◌, Bool-cases, inl,
  inr, Permᴰ, same_order,
}
use spark_rapids_ml.Knn.Fit.{Row}
use spark_rapids_ml.Knn.Join.{KnnRow}
use spark_rapids_ml.Knn.Query.{Spreading}
use spark_rapids_ml.Knn.QueryRows.{StartsAfter, Ascends, IsSpreading}
use spark_rapids_ml.Knn.QueryIds.{IsReading}

abbrev last_of : List ℕ → ℕ
last_of [] = 0
last_of (n ∷ []) = n
last_of (n ∷ m ∷ ns) = last_of (m ∷ ns)

abbrev first_of : List ℕ → ℕ
first_of [] = 0
first_of (n ∷ ns) = n

-- The id stands in front, and the label at the end.
abbrev pub read_row : List String → List ℕ → Row (List ℕ)
read_row columns cells = record { x = cells; label = last_of cells; row_number = first_of cells }

abbrev insert : KnnRow ℕ → List (KnnRow ℕ) → List (KnnRow ℕ)
insert r [] = r ∷ []
insert r (s ∷ rows) =
    let rest = insert r rows in if ltb s.query_id r.query_id then s ∷ rest else r ∷ s ∷ rows

abbrev sort_rows : List (KnnRow ℕ) → List (KnnRow ℕ)
sort_rows [] = []
sort_rows (r ∷ rows) = insert r (sort_rows rows)

insert-Permᴰ : (r : KnnRow ℕ) (rows : List (KnnRow ℕ)) → Permᴰ (insert r rows) (r ∷ rows)
insert-Permᴰ r [] = Permᴰ.refl (r ∷ [])
insert-Permᴰ r (s ∷ rows) = elim (Bool-cases (ltb s.query_id r.query_id)) [
  | inl b ↦ rw b (Permᴰ.trans (Permᴰ.cons refl (insert-Permᴰ r rows)) (Permᴰ.swap refl refl))
  | inr b ↦ rw b (Permᴰ.refl (r ∷ s ∷ rows))
]

sort_rows-Permᴰ : (rows : List (KnnRow ℕ)) → Permᴰ (sort_rows rows) rows
sort_rows-Permᴰ [] = Permᴰ.nil
sort_rows-Permᴰ (r ∷ rows) =
    Permᴰ.trans (insert-Permᴰ r (sort_rows rows)) (Permᴰ.cons refl (sort_rows-Permᴰ rows))

abbrev ids_of : List (KnnRow ℕ) → List ℕ
ids_of rows = map (λ r. r.query_id) rows

insert-StartsAfter :
    (n : ℕ) (r : KnnRow ℕ) (rows : List (KnnRow ℕ))
    → n ≤ r.query_id
    → StartsAfter n (ids_of rows)
    → StartsAfter n (ids_of (insert r rows))
insert-StartsAfter n r [] h k = h
insert-StartsAfter n r (s ∷ rows) h k = elim (Bool-cases (ltb s.query_id r.query_id)) [
  | inl b ↦ rw b k
  | inr b ↦ rw b h
]

insert-Ascends :
    (r : KnnRow ℕ) (rows : List (KnnRow ℕ))
    → Ascends (ids_of rows)
    → Ascends (ids_of (insert r rows))
insert-Ascends r [] h = (tt, tt)
insert-Ascends r (s ∷ rows) (h, hs) = elim (Bool-cases (ltb s.query_id r.query_id)) [
  | inl b ↦
      rw b (insert-StartsAfter s.query_id r rows (ground (arith, b)) h, insert-Ascends r rows hs)
  | inr b ↦ rw b (ground (arith, b), (h, hs))
]

sort_rows-Ascends : (rows : List (KnnRow ℕ)) → Ascends (ids_of (sort_rows rows))
sort_rows-Ascends [] = tt
sort_rows-Ascends (r ∷ rows) = insert-Ascends r (sort_rows rows) (sort_rows-Ascends rows)

abbrev pub one_worker : Spreading ℕ (List ℕ) ℕ
one_worker = record {
  spread = λ df. (map (read_row df.columns) df.rows ∷ []) ∷ [];
  repartition = λ n rows. rows;
  sort = sort_rows;
}

pub one_worker-IsSpreading : IsSpreading one_worker
one_worker-IsSpreading = record {
  repartition-rows = λ n rows. Permᴰ.refl rows;
  sort-rows = sort_rows-Permᴰ;
  sort-Ascends = sort_rows-Ascends;
}

last_of-append : (ns : List ℕ) (n : ℕ) → last_of (ns ++ (n ∷ [])) ≡ n
last_of-append [] n = refl
last_of-append (m ∷ []) n = refl
last_of-append (m ∷ k ∷ ns) n = last_of-append (k ∷ ns) n

pub one_worker-IsReading : IsReading (λ n. n) read_row one_worker
one_worker-IsReading = record {
  spread-rows = λ df. same_order (append-nil (map (read_row df.columns) df.rows));
  read-label = λ columns cells n h e. last_of-append cells n;
}
