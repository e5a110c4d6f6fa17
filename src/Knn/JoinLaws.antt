-- ===== src/Knn/JoinLaws.antt =====
-- The rows of the join, whatever the order in which Spark joins.
use mathlib.Core.List.Permᴰ
use spark_rapids_ml.Base.{
  ℕ, String, ◌≡◌, refl, sym, ap, ◌∙◌, ◌==◌, arith, Bool, false, Option, none, some, List, [], ◌∷◌,
  ◌++◌, map, if◌then◌else◌, All, Bool-cases, Permᴰ, same_order, swap_front, flat, flat-Permᴰ,
  map-Permᴰ, inl, inr,
}
use spark_rapids_ml.Py.Dict.{Dict, get}
use spark_rapids_ml.Knn.Join.{
  KnnRow, Pair, knn_pairs, Joins, equal_ids, id_in, is_item, is_query, joined_row, exact_join,
}

module _ {A B : Type 0} (p : A → B → Bool) where
  -- The pairs of a row of the left side, and of one of the right side.
  abbrev pub partners : A → List B → List (A × B)
  partners x [] = []
  partners x (y ∷ ys) = let rest = partners x ys in if p x y then (x, y) ∷ rest else rest

  abbrev pub partners_of : B → List A → List (A × B)
  partners_of y [] = []
  partners_of y (x ∷ xs) = let rest = partners_of y xs in if p x y then (x, y) ∷ rest else rest

  -- All pairs that match.
  abbrev pub matches : List A → List B → List (A × B)
  matches xs ys = flat (λ x. partners x ys) xs

  -- The matches of the first row on the right can stand in front.
  matches-cons :
      (xs : List A) (y : B) (ys : List B)
      → Permᴰ (matches xs (y ∷ ys)) (partners_of y xs ++ matches xs ys)
  matches-cons [] y ys = Permᴰ.refl []
  matches-cons (x ∷ xs) y ys =
      let rest =
        Permᴰ.trans (Permᴰ.append_left (partners x ys) (matches-cons xs y ys))
          (swap_front (partners x ys) (partners_of y xs) (matches xs ys)) in
      elim (Bool-cases (p x y)) [ inl b ↦ rw b (Permᴰ.cons refl rest) | inr b ↦ rw b rest ]

  matches-nil : (xs : List A) → matches xs [] ≡ []
  matches-nil [] = refl
  matches-nil (x ∷ xs) = matches-nil xs

  -- The pairs whose right side has that one partner, or whose left side has.
  abbrev pub IsOnlyLeft : List A → A × B → Type 0
  IsOnlyLeft xs (x, y) = partners_of y xs ≡ (x, y) ∷ []

  abbrev pub IsOnlyRight : List B → A × B → Type 0
  IsOnlyRight ys (x, y) = partners x ys ≡ (x, y) ∷ []

  matches-left :
      {C : Type 0} (f : C → A × B) (xs : List A) (cs : List C)
      → All (λ c. IsOnlyLeft xs (f c)) cs
      → Permᴰ (matches xs (map (λ c. (f c).1) cs)) (map f cs)
  matches-left f xs [] h = same_order (matches-nil xs)
  matches-left f xs (c ∷ cs) (h, hs) =
      Permᴰ.trans (matches-cons xs (f c).1 (map (λ c. (f c).1) cs))
        (rw h (Permᴰ.cons refl (matches-left f xs cs hs)))

  matches-right :
      (ys : List B) (pairs : List (A × B))
      → All (IsOnlyRight ys) pairs
      → matches (map (λ m. m.0) pairs) ys ≡ pairs
  matches-right ys [] h = refl
  matches-right ys ((x, y) ∷ pairs) (h, hs) = rw (h, matches-right ys pairs hs) refl

-- An inner join has all the pairs that match, in some order.
pub record IsInner (J : Joins) : Type 1 where
  pub join-matches :
      {A B : Type 0} (p : A → B → Bool) (xs : List A) (ys : List B)
      → Permᴰ (J.join p xs ys) (matches p xs ys)

abbrev pub is_id : ℕ → Option ℕ → Bool
is_id i none = false
is_id i (some j) = j == i

equal_ids-item : (o : Option ℕ) (i : ℕ) → equal_ids o (some i) ≡ is_id i o
equal_ids-item none i = refl
equal_ids-item (some j) i = refl

equal_ids-query : (q : ℕ) (o : Option ℕ) → equal_ids (some q) o ≡ is_id q o
equal_ids-query q none = refl
equal_ids-query q (some j) = ground arith

module _ {A : Type 0} (number : A → Option ℕ) (id_col : String) where
  -- The rows with an id.
  abbrev pub with_id : ℕ → List (Dict A) → List (Dict A)
  with_id i [] = []
  with_id i (row ∷ rows) =
      let rest = with_id i rows in
      if is_id i (id_in number (get row id_col)) then row ∷ rest else rest

  -- A single row has the id, which is this one. No row has a null.
  abbrev pub IsOnly : List (Dict A) → Option ℕ → Dict A → Type 0
  IsOnly rows none row = ⊥
  IsOnly rows (some i) row = with_id i rows ≡ row ∷ []

  module _ {D : Type 0} (is_set : Bool) where
    partners_of-with_id :
        (p : Pair D) (i : ℕ) (items : List (Dict A))
        → p.item_id ≡ some i
        → partners_of (is_item number is_set id_col) p items ≡ map (λ x. (x, p)) (with_id i items)
    partners_of-with_id p i [] e = refl
    partners_of-with_id p i (item ∷ items) e =
        elim (Bool-cases (is_id i (id_in number (get item id_col)))) [
          | inl b ↦
              rw
                (
                  ap (equal_ids (id_in number (get item id_col))) e
                      ∙ equal_ids-item (id_in number (get item id_col)) i,
                  b,
                  partners_of-with_id p i items e,
                )
                refl
          | inr b ↦
              rw
                (
                  ap (equal_ids (id_in number (get item id_col))) e
                      ∙ equal_ids-item (id_in number (get item id_col)) i,
                  b,
                  partners_of-with_id p i items e,
                )
                refl
        ]

    partners-with_id :
        (item : Dict A) (p : Pair D) (queries : List (Dict A))
        → partners (is_query number is_set id_col) (item, p) queries
          ≡ map (λ y. ((item, p), y)) (with_id p.query_id queries)
    partners-with_id item p [] = refl
    partners-with_id item p (query ∷ queries) =
        elim (Bool-cases (is_id p.query_id (id_in number (get query id_col)))) [
          | inl b ↦
              rw
                (
                  equal_ids-query p.query_id (id_in number (get query id_col)),
                  b,
                  partners-with_id item p queries,
                )
                refl
          | inr b ↦
              rw
                (
                  equal_ids-query p.query_id (id_in number (get query id_col)),
                  b,
                  partners-with_id item p queries,
                )
                refl
        ]

    only_item :
        (items : List (Dict A)) (item : Dict A) (p : Pair D) (o : Option ℕ)
        → p.item_id ≡ o
        → IsOnly items o item
        → IsOnlyLeft (is_item number is_set id_col) items (item, p)
    only_item items item p none e h = elim h [ ]
    only_item items item p (some i) e h = partners_of-with_id p i items e ∙ ap (map (λ x. (x, p))) h

    only_items :
        (items : List (Dict A)) (matched : List ((Dict A × Pair D) × Dict A))
        → All (λ m. IsOnly items m.0.1.item_id m.0.0) matched
        → All (λ m. IsOnlyLeft (is_item number is_set id_col) items m.0) matched
    only_items items [] h = tt
    only_items items (m ∷ matched) (h, hs) =
        (only_item items m.0.0 m.0.1 m.0.1.item_id refl h, only_items items matched hs)

    only_queries :
        (queries : List (Dict A)) (matched : List ((Dict A × Pair D) × Dict A))
        → All (λ m. IsOnly queries (some m.0.1.query_id) m.1) matched
        → All (IsOnlyRight (is_query number is_set id_col) queries) matched
    only_queries queries [] h = tt
    only_queries queries (m ∷ matched) (h, hs) = (
      partners-with_id m.0.0 m.0.1 queries ∙ ap (map (λ y. (m.0, y))) h,
      only_queries queries matched hs,
    )

module _ {A D : Type 0} (number : A → Option ℕ) (is_set : Bool) (id_col : String) where
  -- The rows of the join, for items, queries and neighbours as they are given.
  pub exact_join-rows :
      (J : Joins) (items queries : List (Dict A)) (rows : List (KnnRow D))
      (matched : List ((Dict A × Pair D) × Dict A))
      → IsInner J
      → map (λ m. m.0.1) matched ≡ knn_pairs rows
      → All (λ m. IsOnly number id_col items m.0.1.item_id m.0.0) matched
      → All (λ m. IsOnly number id_col queries (some m.0.1.query_id) m.1) matched
      → Permᴰ
          (exact_join number is_set id_col J items queries rows)
          (map (joined_row number is_set id_col) matched)
  unfolding exact_join
  exact_join-rows J items queries rows matched I e one_item one_query =
      map-Permᴰ (joined_row number is_set id_col) (
        Permᴰ.trans (I.join-matches _ _ queries) (
          Permᴰ.trans
            (flat-Permᴰ (λ x. partners (is_query number is_set id_col) x queries)
              (Permᴰ.trans (I.join-matches _ items (knn_pairs rows)) (
                rw (sym e) (
                  matches-left _ (λ m. m.0) items matched
                    (only_items number id_col is_set items matched one_item)))))
            (same_order (
              matches-right (is_query number is_set id_col) queries matched
                (only_queries number id_col is_set queries matched one_query)))))
