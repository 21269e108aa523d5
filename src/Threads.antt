-- ===== src/Threads.antt =====
-- Threads as a family of program counters, interleaved by a schedule. One step is one access to
-- shared memory, or one critical section under a lock.
use concurrency_course_by_li.Base.{
  ℕ, zero, suc, ◌+◌, ◌-◌, ◌≤◌, ◌<◌, ◌≡◌, refl, inl, inr, List, [], ◌∷◌, ◌++◌, arith, ltb, ◌==◌,
  if◌then◌else◌, ltb→lt, Bool-cases, length,
}

-- The family with the value at one index replaced.
abbrev pub update {ℓ} : {A : Type ℓ} → (ℕ → A) → ℕ → A → ℕ → A
update f i a = λ j. if i == j then a else f j

-- The weights of the first `n` members, added up.
module _ {ℓ} {A : Type ℓ} (w : A → ℕ) where
  unfoldable pub tally : ℕ → (ℕ → A) → ℕ
  tally zero f = 0
  tally (suc n) f = tally n f + w (f n)

  tally-update_out :
      (n : ℕ) (f : ℕ → A) (i : ℕ) (a : A) → n ≤ i → tally n (update f i a) ≡ tally n f
  unfolding tally
  tally-update_out zero f i a h = refl
  tally-update_out (suc n) f i a h = ground (arith, tally-update_out n f i a)

  pub tally-update :
      (n : ℕ) (f : ℕ → A) (i : ℕ) (a : A)
      → i < n
      → tally n (update f i a) + w (f i) ≡ tally n f + w a
  unfolding tally
  tally-update zero f i a h = absurd (omega arith)
  tally-update (suc n) f i a h = elim (Bool-cases (i == n)) [
    | inl last ↦ ground (arith, tally-update_out n f i a)
    | inr below ↦ ground (arith, tally-update n f i a)
  ]

  -- One member's weight is a part of the sum.
  pub le-tally : (n : ℕ) (f : ℕ → A) (i : ℕ) → i < n → w (f i) ≤ tally n f
  unfolding tally
  le-tally zero f i h = absurd (omega arith)
  le-tally (suc n) f i h = elim (Bool-cases (i == n)) [
    | inl last ↦ ground arith
    | inr below ↦ ground (arith, le-tally n f i)
  ]

  -- The sum without one member.
  abbrev pub others : ℕ → (ℕ → A) → ℕ → ℕ
  others n f i = tally n f - w (f i)

  pub others_add : (n : ℕ) (f : ℕ → A) (i : ℕ) → i < n → others n f i + w (f i) ≡ tally n f
  others_add n f i lt = omega (arith, le-tally n f i lt)

  pub others-update :
      (n : ℕ) (f : ℕ → A) (i : ℕ) (a : A) → i < n → others n f i + w a ≡ tally n (update f i a)
  others-update n f i a lt = omega (arith, le-tally n f i lt, tally-update n f i a lt)

  -- So are two members' weights.
  pub add-le-tally :
      (n : ℕ) (f : ℕ → A) (i j : ℕ) → i < n → j < n → (i ≡ j → ⊥) → w (f i) + w (f j) ≤ tally n f
  unfolding tally
  add-le-tally zero f i j hi hj ne = absurd (omega arith)
  add-le-tally (suc n) f i j hi hj ne = elim (Bool-cases (i == n)) [
    | inl last_i ↦ ground (arith, le-tally n f j, ne)
    | inr below_i ↦ elim (Bool-cases (j == n)) [
      | inl last_j ↦ ground (arith, le-tally n f i, ne)
      | inr below_j ↦ ground (arith, add-le-tally n f i j)
    ]
  ]

  -- If no member weighs anything, the sum is 0.
  pub tally-eq-zero : (n : ℕ) (f : ℕ → A) → ((i : ℕ) → i < n → w (f i) ≡ 0) → tally n f ≡ 0
  unfolding tally
  tally-eq-zero zero f h = refl
  tally-eq-zero (suc n) f h =
      omega (arith, tally-eq-zero n f (λ i lt. h i (omega arith)), h n (omega arith))

  -- If each member weighs 1, the sum is the number of members.
  pub tally-all : (n : ℕ) (f : ℕ → A) → ((i : ℕ) → i < n → w (f i) ≡ 1) → tally n f ≡ n
  unfolding tally
  tally-all zero f h = refl
  tally-all (suc n) f h =
      omega (arith, tally-all n f (λ i lt. h i (omega arith)), h n (omega arith))

  -- If the sum is 0, no member weighs anything.
  pub of_tally-eq-zero : (n : ℕ) (f : ℕ → A) (i : ℕ) → tally n f ≡ 0 → i < n → w (f i) ≡ 0
  of_tally-eq-zero n f i h lt = omega (arith, le-tally n f i lt)

  -- A positive sum has a member with a positive weight.
  pub member_of_tally : (n : ℕ) (f : ℕ → A) → 0 < tally n f → (i : ℕ) × (i < n) × (0 < w (f i))
  unfolding tally
  member_of_tally zero f h = absurd (omega arith)
  member_of_tally (suc n) f h = elim (Bool-cases (ltb 0 (w (f n)))) [
    | inl here ↦ (n, omega arith, ltb→lt _ _ here)
    | inr no_weight ↦ let (i, lt, pos) = member_of_tally n f (ground arith) in (i, omega arith, pos)
  ]

-- Two weights that together are at most 1.
pub add-tally-le {ℓ} :
    {A : Type ℓ} (v w : A → ℕ)
    → ((a : A) → v a + w a ≤ 1)
    → (n : ℕ) (f : ℕ → A) → tally v n f + tally w n f ≤ n
unfolding tally
add-tally-le v w h zero f = omega arith
add-tally-le v w h (suc n) f = omega (arith, add-tally-le v w h n f, h (f n))

-- Weights `w` that only members with a weight `v` have.
module _ {ℓ} {A : Type ℓ} (v w : A → ℕ) (only : (a : A) → v a ≡ 0 → w a ≡ 0) where
  -- If no member has a `v`, there is no `w`.
  pub tally-none : (n : ℕ) (f : ℕ → A) → tally v n f ≡ 0 → tally w n f ≡ 0
  tally-none n f h = tally-eq-zero w n f (λ i lt. only (f i) (of_tally-eq-zero v n f i h lt))

  -- If one member has the only `v`, it has all of `w`.
  pub tally-alone :
      (n : ℕ) (f : ℕ → A) (i : ℕ) → i < n → tally v n f ≤ 1 → v (f i) ≡ 1 → tally w n f ≡ w (f i)
  unfolding tally
  tally-alone zero f i lt few here = absurd (omega arith)
  tally-alone (suc n) f i lt few here = elim (Bool-cases (i == n)) [
    | inl last ↦ ground (arith, tally-none n f)
    | inr below ↦ ground (arith, tally-alone n f i, le-tally v n f i, only (f n))
  ]

-- A sum over a family that a function was mapped over.
pub tally-map {ℓ κ} :
    {A : Type ℓ} {B : Type κ} (w : B → ℕ) (v : A → ℕ) (g : A → B)
    → ((a : A) → w (g a) ≡ v a)
    → (n : ℕ) (f : ℕ → A) → tally w n (λ k. g (f k)) ≡ tally v n f
unfolding tally
tally-map w v g h zero f = refl
tally-map w v g h (suc n) f = omega (arith, tally-map w v g h n f, h (f n))

pub tally-map_le {ℓ κ} :
    {A : Type ℓ} {B : Type κ} (w : B → ℕ) (v : A → ℕ) (g : A → B)
    → ((a : A) → w (g a) ≤ v a)
    → (n : ℕ) (f : ℕ → A) → tally w n (λ k. g (f k)) ≤ tally v n f
unfolding tally
tally-map_le w v g h zero f = omega arith
tally-map_le w v g h (suc n) f = omega (arith, tally-map_le w v g h n f, h (f n))

-- Shared memory, and where each thread stands.
pub record World (M P : Type 0) : Type 0 where
  pub mem : M
  pub pc : ℕ → P

-- The world after thread `i` has left memory and its own program counter as given.
abbrev pub commit : {M P : Type 0} → ℕ → World M P → M × P → World M P
commit i w r = record { mem = r.0; pc = update w.pc i r.1 }

-- A schedule is a list of turns; a turn names a thread and what the thread or its caller chooses
-- there. An index from `n` on names no thread.
module _ {W C : Type 0} (step : ℕ → C → W → W) (n : ℕ) where
  unfoldable pub turn : W → ℕ × C → W
  turn w (i, c) = if ltb i n then step i c w else w

  unfoldable pub run : List (ℕ × C) → W → W
  unfolding turn
  run [] w = w
  run (t ∷ ts) w = run ts (turn w t)

  -- The last turn of a schedule.
  pub run-append :
      (ts : List (ℕ × C)) (t : ℕ × C) (w : W) → run (ts ++ (t ∷ [])) w ≡ turn (run ts w) t
  unfolding run
  run-append [] t w = refl
  run-append (u ∷ ts) t w = run-append ts t (turn w u)

  -- What each turn of a thread keeps holds after every schedule.
  pub run_inv :
      (I : W → Type 0)
      → ((i : ℕ) (c : C) (w : W) → i < n → I w → I (step i c w))
      → (ts : List (ℕ × C)) (w : W) → I w
      → I (run ts w)
  unfolding run
  run_inv I keep [] w h = h
  run_inv I keep ((i, c) ∷ ts) w h = elim (Bool-cases (ltb i n)) [
    | inl lt ↦ run_inv I keep ts _ (rw lt (keep i c w (ltb→lt _ _ lt) h))
    | inr ge ↦ run_inv I keep ts _ (rw ge h)
  ]

  -- The same for what also depends on the number of turns so far.
  pub run_inv_timed :
      (I : ℕ → W → Type 0) (limit : ℕ)
      → ((k i : ℕ) (c : C) (w : W) → k < limit → i < n → I k w → I (suc k) (step i c w))
      → ((k : ℕ) (w : W) → I k w → I (suc k) w)
      → (ts : List (ℕ × C)) (k : ℕ) (w : W) → k + length ts ≤ limit
      → I k w
      → I (k + length ts) (run ts w)
  unfolding run
  run_inv_timed I limit keep wait [] k w short h = let e : k + 0 ≡ k = omega arith in rw e h
  run_inv_timed I limit keep wait ((i, c) ∷ ts) k w short h =
      let e : k + suc (length ts) ≡ suc k + length ts = omega arith in
      rw e (elim (Bool-cases (ltb i n)) [
        | inl lt ↦
            run_inv_timed I limit keep wait ts (suc k) _ (omega arith)
              (rw lt (keep k i c w (omega arith) (ltb→lt _ _ lt) h))
        | inr ge ↦ run_inv_timed I limit keep wait ts (suc k) _ (omega arith) (rw ge (wait k w h))
      ])
