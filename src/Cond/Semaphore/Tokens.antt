-- ===== src/Cond/Semaphore/Tokens.antt =====
-- The tokens of tasks/cond/semaphore/tagged_semaphore.hpp are used once.
use concurrency_course_by_li.Base.{◌<◌, ◌≡◌, Bool, true, false, none, some, arith, ◌==◌, size_mod}
use concurrency_course_by_li.Cond.Semaphore.{
  Semaphore, Token, move, destroy, tagged_acquire, tagged_release,
}

-- A token that `Acquire` gives can be moved, and after the move it is the new token that can be
-- released, once: the old one, and the new one after its release, can only be destroyed; and the
-- semaphore is back where it was.
pub token_life :
    (s : Semaphore) {s' : Semaphore} {t : Token}
    → s.tokens < size_mod
    → tagged_acquire s ≡ some (s', t)
    → (held old spent : Token) × (notify : Bool) × (move t ≡ some (held, old))
      × (destroy old ≡ some tt)
      × (tagged_release s' old ≡ none)
      × (tagged_release s' held ≡ some (s, notify, spent))
      × (tagged_release s' spent ≡ none)
      × (destroy spent ≡ some tt)
      × (destroy held ≡ none)
unfolding tagged_acquire tagged_release move destroy
token_life s lt e = (
  record { valid = true },
  record { valid = false },
  record { valid = false },
  s.tokens == 1,
  ground arith,
  ground arith,
  ground arith,
  ground arith,
  ground arith,
  ground arith,
  ground arith,
)
