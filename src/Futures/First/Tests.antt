-- ===== src/Futures/First/Tests.antt =====
-- tasks/futures/fun/exe/futures/combine/par/first.hpp at work, and its theorem there.
use concurrency_course_by_li.Base.{ℕ, ◌≡◌, refl, true, false, [], ◌∷◌}
use concurrency_course_by_li.Futures.Result.{Result, ok, err}
use concurrency_course_by_li.Futures.RefCounter.{construct, fetch_sub_value, release_ref}
use concurrency_course_by_li.Futures.First.{set_promise, act, step, first, init}
use concurrency_course_by_li.Futures.First.Outcome.{first_settles}

-- Two successes set the promise twice.
abbrev seven : Result ℕ ℕ
seven = ok 7

abbrev eight : Result ℕ ℕ
eight = ok 8

set_twice : (first seven eight (false ∷ true ∷ []) init).shared.sets ≡ eight ∷ seven ∷ []
unfolding first step act set_promise fetch_sub_value release_ref init construct
set_twice = refl

-- Of two errors, the last is set.
abbrev failed : Result ℕ ℕ
failed = err 1

abbrev failed_too : Result ℕ ℕ
failed_too = err 2

last_error_set :
    (first failed failed_too (true ∷ true ∷ false ∷ false ∷ []) init).shared.sets ≡ failed_too ∷ []
unfolding first step act set_promise fetch_sub_value release_ref init construct
last_error_set = refl

first_settles_example :
    let w =
      first failed eight
        (true ∷ true ∷ true ∷ false ∷ false ∷ false ∷ [])
        (first failed eight (false ∷ true ∷ []) init) in
    (w.shared.sets ≡ eight ∷ [])
    × (w.shared.counter.is_deleted ≡ true)
    × (w.shared.counter.fault ≡ false)
first_settles_example = first_settles failed eight (false ∷ true ∷ [])
