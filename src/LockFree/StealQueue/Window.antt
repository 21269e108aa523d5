-- ===== src/LockFree/StealQueue/Window.antt =====
-- The ring of tasks/lockfree/steal/work_stealing_queue.hpp as a list: the values in a run of
-- consecutive positions.
use concurrency_course_by_li.Base.{
  ℕ, zero, suc, ◌+◌, ◌*◌, ◌/◌, ◌%◌, ◌≤◌, ◌<◌, ◌≡◌, refl, sym, ap, inl, inr, List, [], ◌∷◌, ◌++◌,
  arith, ltb, ◌==◌, ==_iff, Bool-cases, length,
}
use concurrency_course_by_li.Threads.{update}
use concurrency_course_by_li.LockFree.StealQueue.{to_index}
use native.Mathlib.Nat.{mul-le-mul_left}
use native.Mathlib.Omega.{div_any}

-- Two positions less than one turn of the ring apart have different slots.
pub to_index-apart : (c a b : ℕ) → a < b → b ≤ a + c → (to_index c a ≡ to_index c b → ⊥)
unfolding to_index
to_index-apart c a b lt near e =
    let ea : (c + 1) * (a / (c + 1)) + a % (c + 1) ≡ a = div_any a (c + 1) in
    let eb : (c + 1) * (b / (c + 1)) + b % (c + 1) ≡ b = div_any b (c + 1) in
    elim (Bool-cases (ltb (a / (c + 1)) (b / (c + 1)))) [
      | inl more ↦
          let m : (c + 1) * (a / (c + 1) + 1) ≤ (c + 1) * (b / (c + 1)) =
            mul-le-mul_left (c + 1) (ground arith) in
          omega arith
      | inr less ↦
          let m : (c + 1) * (b / (c + 1)) ≤ (c + 1) * (a / (c + 1)) =
            mul-le-mul_left (c + 1) (ground arith) in
          omega arith
    ]

module _ {T : Type 0} (c : ℕ) where
  -- The `k` values from position `lo` on.
  unfoldable pub window : (ℕ → T) → ℕ → ℕ → List T
  window f lo zero = []
  window f lo (suc k) = f (to_index c lo) ∷ window f (suc lo) k

  pub window-snoc :
      (f : ℕ → T) (lo k : ℕ) → window f lo (suc k) ≡ window f lo k ++ (f (to_index c (lo + k)) ∷ [])
  unfolding window
  window-snoc f lo zero = let e : lo + 0 ≡ lo = omega arith in rw e refl
  window-snoc f lo (suc k) =
      let e : lo + suc k ≡ suc lo + k = omega arith in
      rw e (ap (λ l. f (to_index c lo) ∷ l) (window-snoc f (suc lo) k))

  pub length-window : (f : ℕ → T) (lo k : ℕ) → length (window f lo k) ≡ k
  unfolding window
  length-window f lo zero = refl
  length-window f lo (suc k) = ap suc (length-window f (suc lo) k)

  pub window-append :
      (f : ℕ → T) (lo j k : ℕ) → window f lo (j + k) ≡ window f lo j ++ window f (lo + j) k
  unfolding window
  window-append f lo zero k =
      let e : lo + 0 ≡ lo = omega arith in let z : 0 + k ≡ k = omega arith in rw (z, e) refl
  window-append f lo (suc j) k =
      let e : lo + suc j ≡ suc lo + j = omega arith in
      let z : suc j + k ≡ suc (j + k) = omega arith in
      rw (z, e) (ap (λ l. f (to_index c lo) ∷ l) (window-append f (suc lo) j k))

  -- Runs whose slots hold the same values are the same.
  pub window-cong :
      (f g : ℕ → T) (lo k : ℕ)
      → ((p : ℕ) → lo ≤ p → p < lo + k → f (to_index c p) ≡ g (to_index c p))
      → window f lo k ≡ window g lo k
  unfolding window
  window-cong f g lo zero same = refl
  window-cong f g lo (suc k) same =
      let rest : window f (suc lo) k ≡ window g (suc lo) k =
        window-cong f g (suc lo) k (λ p a b. same p (omega arith) (omega arith)) in
      rw (same lo (omega arith) (omega arith), rest) refl

  -- A store at one position leaves the positions less than one turn below it alone.
  pub update-apart :
      (f : ℕ → T) (p at : ℕ) (v : T)
      → p < at
      → at ≤ p + c
      → update f (to_index c at) v (to_index c p) ≡ f (to_index c p)
  update-apart f p at v below near = elim (Bool-cases (to_index c at == to_index c p)) [
    | inl same ↦ absurd (to_index-apart c p at below near (sym ((==_iff _ _).0 same)))
    | inr apart ↦ rw apart refl
  ]
