-- ===== src/Tree/FitLaws.antt =====
-- The forest that the workers of a random forest estimator train together.
use mathlib.Core.List.{append-nil}
use spark_rapids_ml.Base.{
  ℕ, ◌≤◌, ◌<◌, ◌≡◌, refl, sym, ap, ◌∙◌, String, Bool, Option, none, some, List, [], ◌∷◌, map, arith,
  str_eq, eq_iff, if◌then◌else◌, length, sum, flatten, length-append, All, zero, suc, get_elem?,
}
use spark_rapids_ml.Py.{ok, err, key_error, bind-eq-ok, ok-injective}
use spark_rapids_ml.Py.Dict.{Dict, get, put, remove, get-put, get-remove}
use spark_rapids_ml.Py.Value.{Value, none_value, bool, int, float, str, strs, Floats}
use spark_rapids_ml.Utils.Partitions.{Codec, IsFaithful}
use spark_rapids_ml.Tree.Estimators.{estimators_per_worker, estimators_per_worker-Levelled}
use spark_rapids_ml.Tree.Fit.{
  Forests, ForestRow, is_auto, auto_max_features, with_max_features, rf_params, train_share,
  load_forests, row_of, rf_fit, construct_rf,
}

-- What the code relies on of cuML's forests.
pub record IsLawful {F Data : Type 0} (W : Forests F Data) : Type 0 where
  -- A forest is trained with as many trees as are asked for.
  pub length-train :
      (b : Bool) (n : ℕ) (params : Dict (Value F)) (d : Data) (f : W.Forest)
      → W.train b n params d ≡ ok f
      → length (W.trees f) ≡ n
  -- Forests are joined into one that has the trees of all of them.
  pub concatenate_lem :
      (f : W.Forest) (fs : List W.Forest)
      → (g : W.Forest) × (W.concatenate (f ∷ fs) ≡ ok g)
        × (W.trees g ≡ flatten (map W.trees (f ∷ fs)))

module _ {F Data M : Type 0} (O : Floats F) (W : Forests F Data) (pickle : Codec M W.Forest) where
  -- A worker's share of the trees, its data, and the forest that it has trained.
  abbrev pub Trained : Bool → ℕ → Dict (Value F) → ℕ × Data × W.Forest → Type 0
  Trained b n params (share, d, f) = train_share O W pickle b n params (some share) (ok d) ≡ ok f

  abbrev pub share_of : ℕ × Data × W.Forest → ℕ
  share_of (share, d, f) = share

  abbrev pub forest_of : ℕ × Data × W.Forest → W.Forest
  forest_of (share, d, f) = f

  abbrev pub sent : List (ℕ × Data × W.Forest) → List M
  sent workers = map (λ (share, d, f). pickle.dumps f) workers

  load_forests-sent :
      (workers : List (ℕ × Data × W.Forest))
      → IsFaithful pickle
      → load_forests O W pickle (sent workers) ≡ ok (map forest_of workers)
  unfolding load_forests
  load_forests-sent [] P = refl
  load_forests-sent ((share, d, f) ∷ workers) P = rw (P.loads-dumps f, load_forests-sent workers P)

  length-share :
      (b : Bool) (n share : ℕ) (params : Dict (Value F)) (d : Data) (f : W.Forest)
      → IsLawful W
      → train_share O W pickle b n params (some share) (ok d) ≡ ok f
      → length (W.trees f) ≡ share
  unfolding train_share
  length-share b n share params d f L h =
      let (given, p, q) =
        bind-eq-ok (rf_params O b n params) (λ given. W.train b share given d) h in
      L.length-train b share given d f q

  length-Trained :
      (b : Bool) (n : ℕ) (params : Dict (Value F)) (workers : List (ℕ × Data × W.Forest))
      → IsLawful W
      → All (Trained b n params) workers
      → length (flatten (map W.trees (map forest_of workers))) ≡ sum (map share_of workers)
  length-Trained b n params [] L t = refl
  length-Trained b n params ((share, d, f) ∷ workers) L (h, t) =
      length-append (W.trees f) _
      ∙ omega (arith, length-share b n share params d f L h, length-Trained b n params workers L t)

  sum-shares :
      (n w : ℕ) (shares : List ℕ)
      → 0 < w
      → w ≤ n
      → estimators_per_worker n w ≡ ok shares
      → sum shares ≡ n
  sum-shares n w shares pos le e =
      let (l, p, _, s, _) = estimators_per_worker-Levelled n w pos le in
      rw (ok-injective (sym e ∙ p)) s

  -- A worker after the first one returns an empty dict.
  pub rf_fit-later :
      (b : Bool) (n : ℕ) (shares : List ℕ) (rank share : ℕ) (all_gather : M → List M)
      (params : Dict (Value F)) (d : Data) (f : W.Forest)
      → get_elem? shares (suc rank) ≡ some share
      → Trained b n params (share, d, f)
      → rf_fit O W pickle b n shares (suc rank) all_gather params (ok d) ≡ ok none
  unfolding rf_fit
  rf_fit-later b n shares rank share all_gather params d f e t = rw (e, t)

  -- Each worker trains its share of the trees on its own data, and all receive the forests of all
  -- workers in the order of their ranks. Then worker 0 returns a row, and a model that is made from
  -- the row is a forest with all the trees of all workers in the order of their ranks, as many as
  -- the estimator was asked for. Assumed: there is at least one tree for each worker, and every
  -- worker's training returns.
  pub rf_fit-trees :
      (b : Bool) (n w : ℕ) (params : Dict (Value F)) (all_gather : M → List M) (share : ℕ)
      (d : Data) (f : W.Forest) (workers : List (ℕ × Data × W.Forest))
      → IsLawful W
      → IsFaithful pickle
      → 0 < w
      → w ≤ n
      → estimators_per_worker n w ≡ ok (share ∷ map share_of workers)
      → All (Trained b n params) ((share, d, f) ∷ workers)
      → all_gather (pickle.dumps f) ≡ sent ((share, d, f) ∷ workers)
      → (row : ForestRow M) × (rf_fit O W pickle b n
            (share ∷ map share_of workers)
            0
            all_gather
            params
            (ok d)
          ≡ ok (some row))
        × (g : W.Forest) × (construct_rf O W pickle row.treelite_model ≡ ok g)
        × (W.trees g ≡ flatten (map W.trees (f ∷ map forest_of workers)))
        × (length (W.trees g) ≡ n)
  unfolding rf_fit construct_rf
  rf_fit-trees b n w params all_gather share d f workers L P pos le e (h, t) gathered =
      let (joined, p, q) = L.concatenate_lem f (map forest_of workers) in
      let (g, r, s) = L.concatenate_lem joined [] in
      let same = s ∙ append-nil (W.trees joined) ∙ q in
      (
        row_of O W pickle b joined,
        rw (h, gathered, load_forests-sent ((share, d, f) ∷ workers) P, p),
        g,
        rw (P.loads-dumps joined, r),
        same,
        ap length same
            ∙ length-Trained b n params ((share, d, f) ∷ workers) L (h, t)
            ∙ sum-shares n w (share ∷ map share_of workers) pos le e,
      )

module _ {F : Type 0} (O : Floats F) where
  abbrev given_params : Bool → ℕ → Dict (Value F) → Value F → Dict (Value F)
  given_params b n params w =
      if is_auto O w
      then put (remove params "n_estimators") "max_features" (auto_max_features O b n)
      else remove params "n_estimators"

  with_estimators :
      (b : Bool) (n : ℕ) (params : Dict (Value F)) (v w : Value F) (o o' : Option (Value F))
      → o ≡ some v
      → o' ≡ some w
      → elim o [
        | none ↦ err key_error
        | some n' ↦ with_max_features O b n (remove params "n_estimators") o'
      ]
        ≡ ok (given_params b n params w)
  with_estimators b n params v w o o' p q = rw (p, q) refl

  -- What "auto" stands for, by the number of trees.
  abbrev pub auto_for : Bool → ℕ → Value F
  auto_for b zero = if b then str "sqrt" else float O.third
  auto_for b (suc zero) = float O.one
  auto_for b (suc (suc n)) = if b then str "sqrt" else float O.third

  -- The `max_features` that a forest has to be given.
  abbrev pub max_features_for : Bool → ℕ → Value F → Value F
  max_features_for b n (str s) = if str_eq s "auto" then auto_for b n else str s
  max_features_for b n v = v

  auto_max_features-auto_for : (b : Bool) (n : ℕ) → auto_max_features O b n ≡ auto_for b n
  unfolding auto_max_features
  auto_max_features-auto_for b zero = refl
  auto_max_features-auto_for b (suc zero) = refl
  auto_max_features-auto_for b (suc (suc n)) = ground arith

  given-max_features_for :
      (b : Bool) (n : ℕ) (w : Value F)
      → (if is_auto O w then auto_max_features O b n else w) ≡ max_features_for b n w
  given-max_features_for b n (str s) = rw (auto_max_features-auto_for b n) refl
  given-max_features_for b n none_value = refl
  given-max_features_for b n (bool x) = refl
  given-max_features_for b n (int x) = refl
  given-max_features_for b n (float x) = refl
  given-max_features_for b n (strs l) = refl

  get-given_params :
      (b : Bool) (n : ℕ) (params : Dict (Value F)) (w : Value F) (k : String)
      → get params "max_features" ≡ some w
      → get (given_params b n params w) k ≡ (
          if str_eq "n_estimators" k
          then none
          else if str_eq "max_features" k
          then some (if is_auto O w then auto_max_features O b n else w)
          else get params k)
  get-given_params b n params w k q = ground (
    arith,
    eq_iff "n_estimators" k,
    eq_iff "max_features" k,
    eq_iff "n_estimators" "max_features",
    get-put (remove params "n_estimators") "max_features" k (auto_max_features O b n),
    get-remove params "n_estimators" k,
  )

  -- The params that a worker's forest is constructed with do not have `n_estimators`, and their
  -- `max_features` is the given one, or, where that is "auto", 1.0 for a single tree, and for any
  -- other number of trees the square root for a classifier and a third for a regressor. All others are
  -- as they were given. Assumed: `n_estimators` and `max_features` are given.
  pub rf_params-get :
      (b : Bool) (n : ℕ) (params : Dict (Value F)) (v w : Value F) (k : String)
      → get params "n_estimators" ≡ some v
      → get params "max_features" ≡ some w
      → (given : Dict (Value F)) × (rf_params O b n params ≡ ok given)
        × (get given k ≡ (
            if str_eq "n_estimators" k
            then none
            else if str_eq "max_features" k
            then some (max_features_for b n w)
            else get params k))
  unfolding rf_params
  rf_params-get b n params v w k p q = (
    given_params b n params w,
    with_estimators b n params v w (get params "n_estimators")
        (get (remove params "n_estimators") "max_features") p
        (get-remove params "n_estimators" "max_features" ∙ q),
    get-given_params b n params w k q ∙ rw (given-max_features_for b n w) refl,
  )
