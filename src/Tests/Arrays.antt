-- ===== src/Tests/Arrays.antt =====
-- Arrays as shapes and rows, joined by `_concat_and_free`.
use spark_rapids_ml.Base.{ℕ, refl, List, [], ◌∷◌, map, flatten}
use spark_rapids_ml.Py.{ok}
use spark_rapids_ml.Utils.Arrays.{NumPy, IsFaithful}

abbrev pub Block : Type 0
Block = List ℕ × List ℕ

abbrev pub blocks : NumPy
blocks = record {
  Array = Block;
  Row = ℕ;
  Dtype = Unit;
  shape = λ a. a.0;
  dtype = λ a. tt;
  rows = λ a. a.1;
  empty = λ dims o d. (dims, []);
  concatenate = λ arrays out. ok (out.0, flatten (map (λ a. a.1) arrays));
}

pub blocks-IsFaithful : IsFaithful blocks
blocks-IsFaithful = record {
  shape-empty = λ dims o d. refl;
  concatenate_lem =
      λ cols n a arrays out h t e. ((out.0, flatten (map (λ a. a.1) (a ∷ arrays))), refl, e, refl);
}

abbrev pub first : Block
first = (2 ∷ 3 ∷ [], 5 ∷ 6 ∷ [])

abbrev pub second : Block
second = (1 ∷ 3 ∷ [], 7 ∷ [])
