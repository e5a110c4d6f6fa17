-- ===== src/Params/Workers.antt =====
-- `_infer_num_workers` of params.py: how many workers there are, by the Spark configuration.
use spark_rapids_ml.Base.{
  ℕ, zero, suc, ◌<◌, ◌≡◌, refl, Bool-cases, inl, inr, String, Bool, true, false, none, some, Option,
  arith, if◌then◌else◌,
}
use spark_rapids_ml.Py.{Result, ok, err, bind}
use spark_rapids_ml.Py.Value.{ℤ, pos, negsuc}

-- What is asked of the Spark session, of CUDA and of floats. Any of it may raise.
pub record Session (F : Type 0) : Type 0 where
  pub is_local : Result Bool
  pub device_count : Result ℕ
  -- spark.conf.get(key, default)
  pub conf : String → String → Result String
  pub executor_infos : Result ℕ
  pub parse_int : String → Result ℤ
  pub parse_float : String → Result F
  pub one : F
  pub equals_one : F → Bool
  -- int(n * x / y)
  pub multiply : ℤ → F → Result F
  pub divide : F → F → Result F
  pub truncate : F → Result ℤ

-- n - 1
unfoldable pub predecessor : ℕ → ℤ
predecessor zero = negsuc 0
predecessor (suc n) = pos n

unfoldable pub is_minus_one : ℤ → Bool
is_minus_one (negsuc zero) = true
is_minus_one _ = false

-- max(n, 1)
unfoldable pub at_least_one : ℤ → ℕ
at_least_one (pos zero) = 1
at_least_one (pos (suc n)) = suc n
at_least_one (negsuc n) = 1

-- The session that is active, if there is one.
abbrev pub Active : Type 0 → Type 0
Active F = Result (Option (Session F))

module _ {F : Type 0} (S : Session F) where
  unfoldable pub num_executors : Result ℤ
  unfolding predecessor is_minus_one
  num_executors = bind (bind (S.conf "spark.executor.instances" "-1") S.parse_int) (λ n.
      if is_minus_one n then bind S.executor_infos (λ infos. ok (predecessor infos)) else ok n)

  abbrev pub gpus_per_executor : Result F
  gpus_per_executor = bind (S.conf "spark.executor.resource.gpu.amount" "1") S.parse_float

  abbrev pub configured_per_task : Result F
  configured_per_task = bind (S.conf "spark.task.resource.gpu.amount" "1") S.parse_float

  -- Any other number of GPUs per task than 1 is replaced by 1.
  abbrev pub gpus_per_task : Result F
  gpus_per_task = bind configured_per_task (λ t. ok (if S.equals_one t then t else S.one))

  unfoldable pub cluster_workers : Result ℕ
  unfolding num_executors at_least_one
  cluster_workers = bind num_executors (λ n. bind gpus_per_executor (λ x. bind gpus_per_task (λ t.
      bind (bind (bind (S.multiply n x) (λ y. S.divide y t)) S.truncate)
        (λ z. ok (at_least_one z)))))

  abbrev pub workers_by : Bool → Result ℕ
  workers_by true = S.device_count
  workers_by false = cluster_workers

-- except Exception: the default is used
abbrev pub or_default : Result ℕ → ℕ
or_default (ok n) = n
or_default (err e) = 1

abbrev pub session_workers : {F : Type 0} → Option (Session F) → Result ℕ
session_workers none = ok 1
session_workers (some S) = bind S.is_local (workers_by S)

unfoldable pub infer_num_workers : {F : Type 0} → Active F → ℕ
unfolding cluster_workers
infer_num_workers active = or_default (bind active session_workers)

-- The number of executors: the configured one, or, where -1 stands for none, the number of those that
-- the tracker has, without the driver.
abbrev pub executors : Result ℤ → Result ℕ → Result ℤ
executors (ok (pos n)) infos = ok (pos n)
executors (ok (negsuc (suc n))) infos = ok (negsuc (suc n))
executors (ok (negsuc zero)) (ok (suc others)) = ok (pos others)
executors (ok (negsuc zero)) (ok zero) = ok (negsuc 0)
executors (ok (negsuc zero)) (err e) = err e
executors (err e) infos = err e

-- The number of workers for a number of GPUs.
abbrev pub workers_for : Result ℤ → ℕ
workers_for (ok (pos (suc n))) = suc n
workers_for (ok (pos zero)) = 1
workers_for (ok (negsuc n)) = 1
workers_for (err e) = 1

module _ {F : Type 0} (S : Session F) where
  executors-of :
      (n : Result ℤ) (infos : Result ℕ)
      → bind n (λ n. if is_minus_one n then bind infos (λ infos. ok (predecessor infos)) else ok n)
        ≡ executors n infos
  unfolding is_minus_one predecessor
  executors-of (ok (pos n)) infos = refl
  executors-of (ok (negsuc (suc n))) infos = refl
  executors-of (ok (negsuc zero)) (ok (suc others)) = refl
  executors-of (ok (negsuc zero)) (ok zero) = refl
  executors-of (ok (negsuc zero)) (err e) = refl
  executors-of (err e) infos = refl

  workers_for-positive : (r : Result ℤ) → 0 < workers_for r
  workers_for-positive (ok (pos (suc n))) = omega arith
  workers_for-positive (ok (pos zero)) = omega arith
  workers_for-positive (ok (negsuc n)) = omega arith
  workers_for-positive (err e) = omega arith

  or_default-workers_for :
      (r : Result ℤ) → or_default (bind r (λ z. ok (at_least_one z))) ≡ workers_for r
  unfolding at_least_one
  or_default-workers_for (ok (pos (suc n))) = refl
  or_default-workers_for (ok (pos zero)) = refl
  or_default-workers_for (ok (negsuc n)) = refl
  or_default-workers_for (err e) = refl

  -- int(num_executors * gpus_per_executor / 1)
  abbrev pub gpus_of : Result ℤ → Result F → Result ℤ
  gpus_of n gpus =
      bind n (λ n. bind gpus (λ x. bind (bind (S.multiply n x) (λ y. S.divide y S.one)) S.truncate))

  per_task :
      (t : F)
      → configured_per_task S ≡ ok t
      → (S.equals_one t ≡ true → t ≡ S.one)
      → gpus_per_task S ≡ ok S.one
  per_task t given only = elim (Bool-cases (S.equals_one t)) [
    | inl b ↦ rw (given, b, only b) refl
    | inr b ↦ rw (given, b) refl
  ]

  workers_of_gpus :
      (n : Result ℤ) (gpus per_task : Result F)
      → per_task ≡ ok S.one
      → bind n (λ n. bind gpus (λ x. bind per_task (λ t.
        bind
          (bind (bind (S.multiply n x) (λ y. S.divide y t)) S.truncate)
          (λ z. ok (at_least_one z)))))
        ≡ bind (gpus_of n gpus) (λ z. ok (at_least_one z))
  workers_of_gpus (err e) gpus per_task h = refl
  workers_of_gpus (ok n) (err e) per_task h = refl
  workers_of_gpus (ok n) (ok x) per_task h = rw h refl

  num_executors-executors :
      num_executors S
      ≡ executors (bind (S.conf "spark.executor.instances" "-1") S.parse_int) S.executor_infos
  unfolding num_executors
  num_executors-executors =
      executors-of (bind (S.conf "spark.executor.instances" "-1") S.parse_int) S.executor_infos

  -- On a cluster it does not matter which number the GPUs per task are. The executors are as many as
  -- are configured, and, where none or -1 is configured, as many as the tracker has without the driver;
  -- each has the configured number of GPUs, or one. There is a worker for each of these GPUs, and one if
  -- there is none or their number cannot be computed. So there is always a worker. Assumed: the GPUs
  -- per task are configured as a number, or not at all, and only 1 is equal to 1.
  pub infer_num_workers-cluster :
      (t : F)
      → S.is_local ≡ ok false
      → bind (S.conf "spark.task.resource.gpu.amount" "1") S.parse_float ≡ ok t
      → (S.equals_one t ≡ true → t ≡ S.one)
      → (infer_num_workers (ok (some S))
          ≡ workers_for (
              gpus_of
                (executors
                  (bind (S.conf "spark.executor.instances" "-1") S.parse_int)
                  S.executor_infos)
                (bind (S.conf "spark.executor.resource.gpu.amount" "1") S.parse_float)))
        × (0 < infer_num_workers (ok (some S)))
  unfolding infer_num_workers cluster_workers
  infer_num_workers-cluster t local given only =
      let gpus = bind (S.conf "spark.executor.resource.gpu.amount" "1") S.parse_float in
      let found =
        executors (bind (S.conf "spark.executor.instances" "-1") S.parse_int) S.executor_infos in
      let exact =
        workers_of_gpus (num_executors S) gpus (gpus_per_task S) (per_task t given only) in
      let all : infer_num_workers (ok (some S)) ≡ workers_for (gpus_of found gpus) =
        rw (local, exact, num_executors-executors) (or_default-workers_for (gpus_of found gpus)) in
      (all, rw all (workers_for-positive (gpus_of found gpus)))
