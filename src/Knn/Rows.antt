-- ===== src/Knn/Rows.antt =====
-- Row ids by position: the loop of `_cuml_fit` in knn.py that fills `id2row`.
use spark_rapids_ml.Base.{
  ℕ, zero, suc, ◌+◌, ◌-◌, ◌≤◌, ◌<◌, ◌≡◌, refl, ◌∙◌, Option, none, some, List, [], ◌∷◌, arith, ◌==◌,
  ltb, if◌then◌else◌, length, get_elem?, flatten, Bool-cases, inl, inr, get_elem?-append_left,
  get_elem?-append_right, get_elem?-eq-none,
}

-- A dict with numbers for keys. What is written later is found first.
abbrev pub IndexDict {ℓ} : Type ℓ → Type ℓ
IndexDict V = List (ℕ × V)

module _ {ℓ} {V : Type ℓ} where
  unfoldable pub find : IndexDict V → ℕ → Option V
  find [] k = none
  find ((j, v) ∷ d) k = if j == k then some v else find d k

  -- id2row.update([(count + i, chunk[i]) for i in range(len(chunk))])
  unfoldable pub add_chunk : IndexDict V → ℕ → List V → IndexDict V
  add_chunk d count [] = d
  add_chunk d count (v ∷ chunk) = add_chunk ((count, v) ∷ d) (suc count) chunk

  -- The loops over the ranks' chunks, with `count` and `id2row` so far.
  unfoldable pub add_chunks : IndexDict V → ℕ → List (List V) → IndexDict V
  unfolding add_chunk
  add_chunks d count [] = d
  add_chunks d count (chunk ∷ chunks) =
      add_chunks (add_chunk d count chunk) (count + length chunk) chunks

  unfoldable pub id2row : List (List (List V)) → IndexDict V
  unfolding add_chunks
  id2row stats = add_chunks [] 0 (flatten stats)

  abbrev pub or_else : Option V → Option V → Option V
  or_else none y = y
  or_else (some x) y = some x

  or_else-none : (x : Option V) → or_else x none ≡ x
  or_else-none none = refl
  or_else-none (some x) = refl

  find-add_chunk_lt :
      (d : IndexDict V) (count : ℕ) (chunk : List V) (j : ℕ)
      → j < count
      → find (add_chunk d count chunk) j ≡ find d j
  unfolding find add_chunk
  find-add_chunk_lt d count [] j h = refl
  find-add_chunk_lt d count (v ∷ chunk) j h =
      ground (arith, find-add_chunk_lt ((count, v) ∷ d) (suc count) chunk j)

  find-add_chunk :
      (d : IndexDict V) (count i j : ℕ) (chunk : List V)
      → j ≡ count + i
      → find (add_chunk d count chunk) j ≡ or_else (get_elem? chunk i) (find d j)
  unfolding find add_chunk
  find-add_chunk d count i j [] h = refl
  find-add_chunk d count zero j (v ∷ chunk) h =
      ground (arith, find-add_chunk_lt ((count, v) ∷ d) (suc count) chunk j)
  find-add_chunk d count (suc i) j (v ∷ chunk) h =
      ground (arith, find-add_chunk ((count, v) ∷ d) (suc count) i j chunk)

  find-add_chunks_lt :
      (d : IndexDict V) (count : ℕ) (chunks : List (List V)) (j : ℕ)
      → j < count
      → find (add_chunks d count chunks) j ≡ find d j
  unfolding add_chunks
  find-add_chunks_lt d count [] j h = refl
  find-add_chunks_lt d count (chunk ∷ chunks) j h =
      find-add_chunks_lt (add_chunk d count chunk) (count + length chunk) chunks j (omega arith)
      ∙ find-add_chunk_lt d count chunk j h

  find-add_chunks :
      (d : IndexDict V) (count i j : ℕ) (chunks : List (List V))
      → j ≡ count + i
      → find (add_chunks d count chunks) j ≡ or_else (get_elem? (flatten chunks) i) (find d j)
  unfolding add_chunks
  find-add_chunks d count i j [] h = refl
  find-add_chunks d count i j (chunk ∷ chunks) h = elim (Bool-cases (ltb i (length chunk))) [
    | inl e ↦
        let lt : i < length chunk = ground arith in
        find-add_chunks_lt (add_chunk d count chunk) (count + length chunk) chunks j (omega arith)
        ∙ find-add_chunk d count i j chunk h
        ∙ rw (get_elem?-append_left chunk (flatten chunks) i lt) refl
    | inr e ↦
        let le : length chunk ≤ i = ground arith in
        find-add_chunks (add_chunk d count chunk) (count + length chunk) (i - length chunk) j chunks
          (omega arith)
        ∙ rw
            (
              find-add_chunk d count i j chunk h,
              get_elem?-append_right chunk (flatten chunks) i le,
              get_elem?-eq-none chunk i le,
            )
            refl
  ]

  -- The dict takes each position in the rows of all ranks, joined in the order of the ranks, to the
  -- id of the row that stands there, and it has no other keys.
  pub find-id2row :
      (stats : List (List (List V))) (j : ℕ)
      → find (id2row stats) j ≡ get_elem? (flatten (flatten stats)) j
  unfolding id2row find
  find-id2row stats j = find-add_chunks [] 0 j j (flatten stats) (omega arith) ∙ or_else-none _
