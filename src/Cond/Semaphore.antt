-- ===== src/Cond/Semaphore.antt =====
-- tasks/cond/semaphore: the counting semaphore of semaphore.hpp and the tokens of
-- tagged_semaphore.hpp. A critical section under `wait_mtx_` is one step.
pub mod Tokens
mod Tests
use concurrency_course_by_li.Base.{
  ℕ, zero, suc, ◌+◌, ◌-◌, ◌*◌, ◌/◌, ◌%◌, ◌^◌, ◌≤◌, ◌<◌, ◌≡◌, refl, sym, ap, ◌∙◌, subst, ◌≢◌, ◌↔◌,
  ◌⊎◌, inl, inr, Bool, true, false, not, ◌&&◌, ◌||◌, Option, none, some, List, [], ◌∷◌, ◌++◌, map,
  append_assoc, append-nil, arith, ltb, leb, ◌==◌, if◌then◌else◌, ltb→lt, lt→ltb, ==_iff,
  Bool-cases, Option-cases, length, length-append, size_mod, wrap_add, wrap_sub,
}

pub record Semaphore : Type 0 where
  pub tokens : ℕ  -- size_t

abbrev pub make : ℕ → Semaphore
make tokens = record { tokens = tokens }

-- One evaluation of the predicate of `wait_cv_.wait`, and what follows if it holds; `none` means
-- that the caller goes to sleep on the condition variable.
unfoldable pub acquire : Semaphore → Option Semaphore
acquire s = if s.tokens == 0 then none else some (record { tokens = s.tokens - 1 })

-- The second part says whether the sleepers are notified.
unfoldable pub release : Semaphore → Semaphore × Bool
release s = let t = (s.tokens + 1) % size_mod in (record { tokens = t }, t == 1)

-- `Token`; an assertion that fails is `none`.
pub record Token : Type 0 where
  pub valid : Bool

pub fresh : Token
fresh = record { valid = true }

pub invalidate : Token → Option Token
invalidate t = if t.valid then some (record { valid = false }) else none

-- The move constructor: the new token, and the one moved from.
pub move : Token → Option (Token × Token)
unfolding invalidate fresh
move that = elim (invalidate that) [ none ↦ none | some that' ↦ some (fresh, that') ]

pub destroy : Token → Option (Unit {0})
destroy t = if t.valid then none else some tt

-- `TaggedSemaphore::Acquire`, where `Semaphore::Acquire` does not wait.
pub tagged_acquire : Semaphore → Option (Semaphore × Token)
unfolding acquire fresh
tagged_acquire s = elim (acquire s) [ none ↦ none | some s' ↦ some (s', fresh) ]

-- `TaggedSemaphore::Release`: the semaphore, whether sleepers are notified, and the token after.
pub tagged_release : Semaphore → Token → Option (Semaphore × Bool × Token)
unfolding release invalidate
tagged_release s t =
    let (s', notify) = release s in
    elim (invalidate t) [ none ↦ none | some t' ↦ some (s', notify, t') ]
