-- ===== src/Tree/Estimators.antt =====
-- `_RandomForestEstimator._estimators_per_worker`: how many trees each task trains.
use mathlib.Core.Path.{subst}
use spark_rapids_ml.Base.{
  ℕ, zero, suc, ◌+◌, ◌-◌, ◌*◌, ◌/◌, ◌≤◌, ◌<◌, ◌≡◌, refl, ◌∙◌, List, [], ◌∷◌, arith, ltb, ◌==◌,
  false, if◌then◌else◌, length, sum, replicate, length-replicate,
}
use spark_rapids_ml.Py.{Result, ok, err, value_error, zero_division, index_error, bind}

-- l[i] = l[i] + 1
unfoldable pub increment : List ℕ → ℕ → Result (List ℕ)
increment [] i = err index_error
increment (x ∷ l) zero = ok ((x + 1) ∷ l)
increment (x ∷ l) (suc i) = bind (increment l i) (λ l'. ok (x ∷ l'))

-- The loop over `range(remaining_est)`, from `i` on, with `r` rounds left.
unfoldable pub increment_range : ℕ → ℕ → List ℕ → Result (List ℕ)
unfolding increment
increment_range zero i l = ok l
increment_range (suc r) i l = bind (increment l i) (increment_range r (i + 1))

-- The quotient is taken of floats and rounded down; below 2 ^ 53 this is the division of numbers.
unfoldable pub estimators_per_worker : ℕ → ℕ → Result (List ℕ)
unfolding increment_range
estimators_per_worker n_estimators n_workers =
    if ltb n_estimators n_workers
    then err value_error
    else if n_workers == 0
    then err zero_division
    else (let n_est = n_estimators / n_workers in
        increment_range (n_estimators - n_est * n_workers) 0 (replicate n_workers n_est))

-- The first `i` workers have one tree more than `q`, and the others have `q`.
abbrev pub Levelled : ℕ → ℕ → List ℕ → Type 0
Levelled q i [] = i ≡ 0
Levelled q zero (x ∷ l) = (x ≡ q) × Levelled q zero l
Levelled q (suc i) (x ∷ l) = (x ≡ q + 1) × Levelled q i l

replicate-Levelled : (n q : ℕ) → Levelled q 0 (replicate n q)
replicate-Levelled zero q = refl
replicate-Levelled (suc n) q = (refl, replicate-Levelled n q)

increment-Levelled :
    (q i : ℕ) (l : List ℕ)
    → i < length l
    → Levelled q i l
    → (l' : List ℕ) × (increment l i ≡ ok l') × Levelled q (suc i) l' × (length l' ≡ length l)
unfolding increment
increment-Levelled q i [] h v = elim h [ ]
increment-Levelled q zero (x ∷ l) h (e, v) = ((x + 1) ∷ l, refl, (omega arith, v), refl)
increment-Levelled q (suc i) (x ∷ l) h (e, v) =
    let (l', p, v', n) = increment-Levelled q i l (omega arith) v in
    (x ∷ l', rw p, (e, v'), omega arith)

increment_range-Levelled :
    (r q i : ℕ) (l : List ℕ)
    → i + r ≤ length l
    → Levelled q i l
    → (l' : List ℕ) × (increment_range r i l ≡ ok l')
      × Levelled q (i + r) l'
      × (length l' ≡ length l)
unfolding increment_range
increment_range-Levelled zero q i l h v =
    (l, refl, subst (λ k. Levelled q k l) (omega arith) v, refl)
increment_range-Levelled (suc r) q i l h v =
    let (l', p, v', n) = increment-Levelled q i l (omega arith) v in
    let (l'', p', v'', n') =
      increment_range-Levelled r q (i + 1) l' (omega arith)
        (subst (λ k. Levelled q k l') (omega arith) v') in
    (l'', rw p p', subst (λ k. Levelled q k l'') (omega arith) v'', omega arith)

sum-Levelled : (q i : ℕ) (l : List ℕ) → Levelled q i l → sum l ≡ length l * q + i
sum-Levelled q i [] h = omega arith
sum-Levelled q zero (x ∷ l) (e, h) = omega (arith, sum-Levelled q zero l h)
sum-Levelled q (suc i) (x ∷ l) (e, h) = omega (arith, sum-Levelled q i l h)

quotient_bounds : (n w : ℕ) → 0 < w → (n / w * w ≤ n) × (n - n / w * w < w)
quotient_bounds n w pos = (omega arith, omega arith)

ltb-eq-false : (n w : ℕ) → w ≤ n → ltb n w ≡ false
ltb-eq-false n w h = ground arith

==-eq-false : (w : ℕ) → 0 < w → (w == 0) ≡ false
==-eq-false w h = ground arith

-- What the loop makes of equal shares of `q`, where `r` trees are left over.
Shared : ℕ → ℕ → ℕ → ℕ → Result (List ℕ) → Type 0
Shared n w q r res = (l : List ℕ) × (res ≡ ok l) × (length l ≡ w) × (sum l ≡ n) × Levelled q r l

increment_range-Shared :
    (n w q r : ℕ) → r ≤ w → w * q + r ≡ n → Shared n w q r (increment_range r 0 (replicate w q))
unfolding Shared
increment_range-Shared n w q r h e =
    let k = length-replicate w q in
    let (l, p, v, m) =
      increment_range-Levelled r q 0 (replicate w q) (omega (arith, k)) (replicate-Levelled w q) in
    let v' : Levelled q r l = subst (λ j. Levelled q j l) (omega arith) v in
    let m' : length l ≡ w = m ∙ k in (l, p, m', sum-Levelled q r l v' ∙ rw m' e, v')

-- With at least one tree for each worker the call returns, with as many entries as there are
-- workers. The entries add up to the number of trees, each is the rounded quotient or one more,
-- and the larger ones stand first.
pub estimators_per_worker-Levelled :
    (n w : ℕ)
    → 0 < w
    → w ≤ n
    → (l : List ℕ) × (estimators_per_worker n w ≡ ok l)
      × (length l ≡ w)
      × (sum l ≡ n)
      × Levelled (n / w) (n - n / w * w) l
unfolding estimators_per_worker Shared
estimators_per_worker-Levelled n w pos le =
    let (low, high) = quotient_bounds n w pos in
    rw (ltb-eq-false n w le, ==-eq-false w pos)
      (increment_range-Shared n w (n / w) (n - n / w * w) (omega arith) (omega arith))
