-- ===== src/Core/InputsLaws.antt =====
-- Whatever the pre-processing has selected, the tasks find it in the frames.
use spark_rapids_ml.Base.{String, ◌≡◌, Option, none, some, List, ◌∷◌, map, All}
use spark_rapids_ml.Py.{Result, ok}
use spark_rapids_ml.Py.Dict.{Dict, get}
use spark_rapids_ml.Py.Value.{Value, str, strs}
use spark_rapids_ml.Core.Columns.{Column, column_name, data_alias}
use spark_rapids_ml.Core.Features.{Selection}
use spark_rapids_ml.Core.Inputs.{Features, many, stacked}

module _ {Y : Type 0} where
  -- The frame has the columns that were selected, under their names.
  abbrev pub IsOf : List Column → Dict Y → Type 0
  IsOf select_cols d = All (λ c. (y : Y) × (get d (column_name c) ≡ some y)) select_cols

  -- The cells of the given columns, under their names and in their order.
  abbrev pub AreCells : Dict Y → List String → Dict Y → Type 0
  AreCells d names e = (map (λ (c, y). c) e ≡ names) × All (λ (c, y). get d c ≡ some y) e

  abbrev HasNames : List String → Dict Y → Type 0
  HasNames names d = All (λ c. (y : Y) × (get d c ≡ some y)) names

-- A single column or at least one of many is given.
abbrev pub IsGiven : {F : Type 0} → Option (Value F) × Option (Value F) → Type 0
IsGiven (some (str c), rest) = Unit
IsGiven (none, some (strs (c ∷ names))) = Unit
IsGiven _ = ⊥

module _ {X Y : Type 0} where
  -- What a task reads of the features of a frame, by the columns that the estimator was given.
  abbrev pub Reads :
      {F : Type 0}
      → (Y → Result X)
      → Option (Value F) × Option (Value F)
      → Dict Y
      → Features X Y
      → Type 0
  Reads to_array (some (str c), rest) d f =
      (y : Y) × (x : X) × (get d data_alias ≡ some y) × (to_array y ≡ ok x) × (f ≡ stacked x)
  Reads to_array (none, some (strs (c ∷ names))) d f =
      (e : Dict Y) × (f ≡ many e) × AreCells d (c ∷ names) e
  Reads to_array _ d f = ⊥

  -- Every column can be made an array.
  abbrev pub Converts : (Y → Result X) → Type 0
  Converts to_array = (y : Y) → (x : X) × (to_array y ≡ ok x)
