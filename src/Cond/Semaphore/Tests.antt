-- ===== src/Cond/Semaphore/Tests.antt =====
-- The life of one token (tasks/cond/semaphore/tagged_semaphore.hpp).
use concurrency_course_by_li.Base.{◌≡◌, refl, Bool, none, some, arith}
use concurrency_course_by_li.Cond.Semaphore.{
  Token, make, move, destroy, tagged_acquire, tagged_release, fresh,
}
use concurrency_course_by_li.Cond.Semaphore.Tokens.{token_life}

token_life_example :
    (held old spent : Token) × (notify : Bool) × (move fresh ≡ some (held, old))
    × (destroy old ≡ some tt)
    × (tagged_release (make 2) old ≡ none)
    × (tagged_release (make 2) held ≡ some (make 3, notify, spent))
    × (tagged_release (make 2) spent ≡ none)
    × (destroy spent ≡ some tt)
    × (destroy held ≡ none)
unfolding tagged_acquire fresh
token_life_example = token_life (make 3) (omega arith) refl
