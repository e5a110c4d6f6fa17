-- ===== src/Utils/Partitions.antt =====
-- `PartitionDescriptor`: what every worker of a barrier stage knows of the rows of the others.
use mathlib.Core.List.{append-nil}
use spark_rapids_ml.Base.{
  ℕ, zero, suc, ◌+◌, ◌<◌, ◌≡◌, ◌≢◌, refl, ◌∙◌, ap, Option, none, some, List, [], ◌∷◌, ◌++◌, map,
  arith, ◌==◌, if◌then◌else◌, sum, flatten, get_elem?,
}
use spark_rapids_ml.Py.{Result, ok, err, runtime_error, bind}

-- dumps and loads of json, or of pickle with base64, at one type of values. `M` is the type of the messages, which the
-- program takes to be strings and only sends and receives.
pub record Codec {ℓ} (M : Type 0) (A : Type ℓ) : Type ℓ where
  pub dumps : A → M
  pub loads : M → Result A

pub record IsFaithful {ℓ} {M : Type 0} {A : Type ℓ} (J : Codec M A) : Type ℓ where
  pub loads-dumps : (a : A) → J.loads (J.dumps a) ≡ ok a

-- (rank, rows of a partition)
abbrev pub Part : Type 0
Part = ℕ × ℕ

pub record PartitionDescriptor : Type 0 where
  pub m : ℕ
  pub n : ℕ
  pub rank : ℕ
  pub parts_rank_size : List Part

abbrev pub rank_size : ℕ → List ℕ → List Part
rank_size rank rows = map (λ size. (rank, size)) rows

abbrev pub sizes : List Part → List ℕ
sizes parts = map (λ (_, size). size) parts

module _ {M : Type 0} (J : Codec M (List Part)) where
  -- [item for pair in messages for item in json.loads(pair)]
  unfoldable pub load_parts : List M → Result (List Part)
  load_parts [] = ok []
  load_parts (message ∷ messages) =
      bind (J.loads message) (λ parts. bind (load_parts messages) (λ rest. ok (parts ++ rest)))

  -- `all_gather` is the context's `allGather`, if there is a context: it takes this task's message
  -- and returns the messages of all tasks.
  unfoldable pub build : Option (ℕ × (M → List M)) → List ℕ → ℕ → Result PartitionDescriptor
  unfolding load_parts
  build none partition_rows total_cols = err runtime_error
  build (some (rank, all_gather)) partition_rows total_cols =
      bind (load_parts (all_gather (J.dumps (rank_size rank partition_rows)))) (λ parts.
        ok (record { m = sum (sizes parts); n = total_cols; rank = rank; parts_rank_size = parts }))

  -- The messages of the workers from rank `i` on, in the order of their ranks.
  abbrev pub messages_from : ℕ → List (List ℕ) → List M
  messages_from i [] = []
  messages_from i (rows ∷ workers) = J.dumps (rank_size i rows) ∷ messages_from (suc i) workers

-- All parts, in the order of their ranks.
abbrev pub parts_from : ℕ → List (List ℕ) → List Part
parts_from i [] = []
parts_from i (rows ∷ workers) = rank_size i rows ++ parts_from (suc i) workers

-- The sizes that are listed for a rank.
pub sizes_of : ℕ → List Part → List ℕ
sizes_of r [] = []
sizes_of r ((rank, size) ∷ parts) =
    let rest = sizes_of r parts in if rank == r then size ∷ rest else rest

load_parts-messages_from :
    {M : Type 0} (J : Codec M (List Part)) (F : IsFaithful J) (i : ℕ) (workers : List (List ℕ))
    → load_parts J (messages_from J i workers) ≡ ok (parts_from i workers)
unfolding load_parts
load_parts-messages_from J F i [] = refl
load_parts-messages_from J F i (rows ∷ workers) =
    rw (F.loads-dumps (rank_size i rows), load_parts-messages_from J F (suc i) workers)

sizes-append : (xs ys : List Part) → sizes (xs ++ ys) ≡ sizes xs ++ sizes ys
sizes-append [] ys = refl
sizes-append (x ∷ xs) ys = ap (λ l. x.1 ∷ l) (sizes-append xs ys)

sizes-rank_size : (i : ℕ) (rows : List ℕ) → sizes (rank_size i rows) ≡ rows
sizes-rank_size i [] = refl
sizes-rank_size i (x ∷ rows) = ap (λ l. x ∷ l) (sizes-rank_size i rows)

sizes-parts_from :
    (i : ℕ) (workers : List (List ℕ)) → sizes (parts_from i workers) ≡ flatten workers
sizes-parts_from i [] = refl
sizes-parts_from i (rows ∷ workers) =
    rw (sizes-append, sizes-rank_size, sizes-parts_from (suc i) workers)

sizes_of-append :
    (r : ℕ) (xs ys : List Part) → sizes_of r (xs ++ ys) ≡ sizes_of r xs ++ sizes_of r ys
unfolding sizes_of
sizes_of-append r [] ys = refl
sizes_of-append r ((k, n) ∷ xs) ys = ground (arith, sizes_of-append r xs ys)

sizes_of-rank_size_self : (r : ℕ) (rows : List ℕ) → sizes_of r (rank_size r rows) ≡ rows
unfolding sizes_of
sizes_of-rank_size_self r [] = refl
sizes_of-rank_size_self r (x ∷ rows) = ground (arith, sizes_of-rank_size_self r rows)

sizes_of-rank_size_ne : (r i : ℕ) (rows : List ℕ) → i ≢ r → sizes_of r (rank_size i rows) ≡ []
unfolding sizes_of
sizes_of-rank_size_ne r i [] h = refl
sizes_of-rank_size_ne r i (x ∷ rows) h = ground (arith, sizes_of-rank_size_ne r i rows h)

sizes_of-parts_from_lt :
    (r i : ℕ) (workers : List (List ℕ)) → r < i → sizes_of r (parts_from i workers) ≡ []
unfolding sizes_of
sizes_of-parts_from_lt r i [] h = refl
sizes_of-parts_from_lt r i (rows ∷ workers) h =
    sizes_of-append r (rank_size i rows) (parts_from (suc i) workers)
    ∙ rw (
      sizes_of-rank_size_ne r i rows (omega arith),
      sizes_of-parts_from_lt r (suc i) workers (omega arith),
    )

sizes_of-parts_from :
    (i k r : ℕ) (workers : List (List ℕ)) (rows : List ℕ)
    → r ≡ i + k
    → get_elem? workers k ≡ some rows
    → sizes_of r (parts_from i workers) ≡ rows
sizes_of-parts_from i k r [] rows e h = cc
sizes_of-parts_from i zero r (x ∷ workers) rows e h =
    sizes_of-append r (rank_size i x) (parts_from (suc i) workers)
    ∙ let ir : i ≡ r = omega arith in
      let xr : x ≡ rows = cc in
      rw
        (
          ir,
          sizes_of-rank_size_self r x,
          sizes_of-parts_from_lt r (suc r) workers (omega arith),
          append-nil,
        )
        xr
sizes_of-parts_from i (suc k) r (x ∷ workers) rows e h =
    sizes_of-append r (rank_size i x) (parts_from (suc i) workers)
    ∙ rw (
      sizes_of-rank_size_ne r i x (omega arith),
      sizes_of-parts_from (suc i) k r workers rows (omega arith) h,
    )

-- The descriptor that the worker of a rank builds when every worker sends the rows of its own
-- partitions and receives the messages of all in the order of their ranks.
unfoldable pub Describes : (workers : List (List ℕ)) (rank cols : ℕ) → PartitionDescriptor → Type 0
Describes workers rank cols d =
    (d.m ≡ sum (flatten workers))
    × (d.n ≡ cols)
    × (d.rank ≡ rank)
    × (d.parts_rank_size ≡ parts_from 0 workers)

-- If every worker sends its own parts and receives those of all workers in the order of their
-- ranks, then each one builds a descriptor whose row count is that of all the workers together,
-- with its own rank and column count, and whose parts are the same for all workers; for any rank
-- the parts that it lists are the partitions of the worker of that rank, in their order.
pub build-Describes :
    {M : Type 0} (J : Codec M (List Part)) (workers : List (List ℕ)) (all_gather : M → List M)
    (rank cols k : ℕ) (rows rows_k : List ℕ)
    → IsFaithful J
    → all_gather (J.dumps (rank_size rank rows)) ≡ messages_from J 0 workers
    → get_elem? workers k ≡ some rows_k
    → (d : PartitionDescriptor) × (build J (some (rank, all_gather)) rows cols ≡ ok d)
      × Describes workers rank cols d
      × (sizes_of k d.parts_rank_size ≡ rows_k)
unfolding build Describes
build-Describes J workers all_gather rank cols k rows rows_k F gathered h = (
  record {
    m = sum (flatten workers);
    n = cols;
    rank = rank;
    parts_rank_size = parts_from 0 workers;
  },
  rw (gathered, load_parts-messages_from J F 0 workers, sizes-parts_from 0 workers),
  (refl, refl, refl, refl),
  sizes_of-parts_from 0 k k workers rows_k (omega arith) h,
)
