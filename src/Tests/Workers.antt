-- ===== src/Tests/Workers.antt =====
-- Two workers, their rows, their devices and their trees.
use spark_rapids_ml.Base.{ℕ, ◌*◌, ◌-◌, ◌/◌, ◌≡◌, ◌≢◌, refl, arith, some, List, [], ◌∷◌, sum, length}
use spark_rapids_ml.Py.{Result, ok}
use spark_rapids_ml.Utils.Partitions.{
  Codec, IsFaithful, PartitionDescriptor, build, messages_from, Describes, sizes_of,
  build-Describes,
}
use spark_rapids_ml.Utils.Devices.{TaskContext}
use spark_rapids_ml.Tree.Estimators.{
  estimators_per_worker, Levelled, estimators_per_worker-Levelled,
}
use spark_rapids_ml.Knn.Fit.{Row, Request, Neighbors, cuml_fit, labelled}
use spark_rapids_ml.Knn.Positions.{ids_at}
use spark_rapids_ml.Knn.FitLaws.{stat_messages, cuml_fit-ids}

estimators_per_worker-Levelled_example :
    (l : List ℕ) × (estimators_per_worker 8 3 ≡ ok l)
    × (length l ≡ 3)
    × (sum l ≡ 8)
    × Levelled (8 / 3) (8 - 8 / 3 * 3) l
estimators_per_worker-Levelled_example =
    estimators_per_worker-Levelled 8 3 (omega arith) (omega arith)

-- Messages that are the values themselves.
abbrev messages : {A : Type 0} → Codec A A
messages = record { dumps = λ a. a; loads = λ a. ok a }

messages-IsFaithful : {A : Type 0} → IsFaithful (messages {A = A})
messages-IsFaithful = record { loads-dumps = λ a. refl }

abbrev partitions : List (List ℕ)
partitions = (4 ∷ 3 ∷ []) ∷ (5 ∷ []) ∷ []

build-Describes_example :
    (d : PartitionDescriptor) × (build messages
        (some (1, λ m. messages_from messages 0 partitions))
        (5 ∷ [])
        2
      ≡ ok d)
    × Describes partitions 1 2 d
    × (sizes_of 0 d.parts_rank_size ≡ 4 ∷ 3 ∷ [])
build-Describes_example =
    build-Describes messages partitions (λ m. messages_from messages 0 partitions) 1 2 0 (5 ∷ [])
      (4 ∷ 3 ∷ []) messages-IsFaithful refl refl

abbrev task : ℕ → TaskContext
task n = record { resources = []; partition_id = n }

one-ne-zero : ◌≢◌ {A = ℕ} 1 0
one-ne-zero h = omega arith

-- An item is labelled 0 and a query 1.
abbrev pub worker_0 : List (Row ℕ)
worker_0 =
    record { x = 20; label = 0; row_number = 70 }
    ∷ record { x = 21; label = 1; row_number = 71 }
    ∷ []

abbrev pub worker_1 : List (Row ℕ)
worker_1 = record { x = 22; label = 0; row_number = 72 } ∷ []

abbrev pub rows_of_workers : List (List (List (Row ℕ)))
rows_of_workers = (worker_0 ∷ []) ∷ (worker_1 ∷ []) ∷ []

-- The items of both workers are neighbours of the query, the second one first.
abbrev nearest : Request ℕ → Result (Neighbors ℕ)
nearest r = ok (((1 ∷ 2 ∷ []) ∷ []) ∷ [], ((1 ∷ 0 ∷ []) ∷ []) ∷ [])

cuml_fit-ids_example :
    cuml_fit messages nearest
      (λ m. stat_messages 0 1 messages 0 rows_of_workers)
      0
      1
      0
      3
      2
      (worker_0 ∷ [])
    ≡ ok (record {
      query_ids = (71 ∷ []) ∷ [];
      indices = ((72 ∷ 70 ∷ []) ∷ []) ∷ [];
      distances = ((1 ∷ 2 ∷ []) ∷ []) ∷ [];
    })
unfolding labelled ids_at
cuml_fit-ids_example =
    cuml_fit-ids messages nearest (λ m. stat_messages 0 1 messages 0 rows_of_workers) 0 1 0 3 2
      rows_of_workers worker_0 [] (((1 ∷ 2 ∷ []) ∷ []) ∷ []) ((1 ∷ 0 ∷ []) ∷ []) messages-IsFaithful
      refl refl ((omega arith, (omega arith, tt)), tt)
