-- ===== src/Futex.antt =====
-- What the code relies on of `twist::ed::futex`, which is not part of the repository.
use concurrency_course_by_li.Base.{
  ℕ, zero, suc, ◌<◌, ◌≡◌, ◌↔◌, inl, inr, Bool, true, false, Option, none, some, arith, ◌==◌,
  if◌then◌else◌, ==_iff, Bool-cases,
}

-- `parks cur old`: whether `Wait(cell, old)` blocks its caller when the cell holds `cur`.
-- `wake_one n asleep`: whom of the `n` threads `WakeOne` wakes, given who is asleep on the cell.
pub record Futex : Type 0 where
  pub parks : ℕ → ℕ → Bool
  pub wake_one : ℕ → (ℕ → Bool) → Option ℕ

-- `pick` chooses a sleeper among `n` threads, if there is one: what `WakeOne` does, and
-- `notify_one` of a condition variable.
pub record PicksSleeper (pick : ℕ → (ℕ → Bool) → Option ℕ) : Type 0 where
  pub picks_some :
      (n : ℕ) (asleep : ℕ → Bool) (j : ℕ) → pick n asleep ≡ some j → (j < n) × (asleep j ≡ true)
  pub picks_none :
      (n : ℕ) (asleep : ℕ → Bool) → pick n asleep ≡ none → (i : ℕ) → i < n → asleep i ≡ false

-- The documented behaviour: `Wait` blocks exactly while the cell holds the expected value, and
-- `WakeOne` wakes a sleeper, if there is one.
pub record FutexLaws (f : Futex) : Type 0 where
  pub parks_iff : (cur old : ℕ) → (f.parks cur old ≡ true) ↔ (cur ≡ old)
  pub wakes : PicksSleeper f.wake_one

-- The sleeper with the greatest index.
unfoldable pub last_asleep : ℕ → (ℕ → Bool) → Option ℕ
last_asleep zero asleep = none
last_asleep (suc n) asleep = let rest = last_asleep n asleep in if asleep n then some n else rest

last_asleep-some :
    (n : ℕ) (asleep : ℕ → Bool) (j : ℕ)
    → last_asleep n asleep ≡ some j
    → (j < n) × (asleep j ≡ true)
unfolding last_asleep
last_asleep-some zero asleep j e = cc
last_asleep-some (suc n) asleep j e = ground (arith, last_asleep-some n asleep j)

last_asleep-none :
    (n : ℕ) (asleep : ℕ → Bool) → last_asleep n asleep ≡ none → (i : ℕ) → i < n → asleep i ≡ false
unfolding last_asleep
last_asleep-none zero asleep e i h = absurd (omega arith)
last_asleep-none (suc n) asleep e i h = elim (Bool-cases (i == n)) [
  | inl last ↦ ground arith
  | inr below ↦ ground (arith, last_asleep-none n asleep _ i)
]

pub last_asleep-PicksSleeper : PicksSleeper last_asleep
last_asleep-PicksSleeper = record { picks_some = last_asleep-some; picks_none = last_asleep-none }

unfoldable pub last_futex : Futex
unfolding last_asleep
last_futex = record { parks = λ cur old. cur == old; wake_one = last_asleep }

pub last_futex_laws : FutexLaws last_futex
unfolding last_futex
last_futex_laws = record { parks_iff = ==_iff; wakes = last_asleep-PicksSleeper }
