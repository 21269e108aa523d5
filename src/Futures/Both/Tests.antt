-- ===== src/Futures/Both/Tests.antt =====
-- tasks/futures/fun/exe/futures/combine/par/all.hpp at work, and its theorem there.
use concurrency_course_by_li.Base.{ℕ, ◌≡◌, refl, Bool, true, false, [], ◌∷◌}
use concurrency_course_by_li.Futures.Result.{Result, ok, err}
use concurrency_course_by_li.Futures.RefCounter.{construct, fetch_sub_value, release_ref}
use concurrency_course_by_li.Futures.Both.{
  set_promise, store_x, store_y, start, act, step, both, init,
}
use concurrency_course_by_li.Futures.Both.Outcome.{both_settles}

-- Two errors set the promise twice.
abbrev failed : Result ℕ ℕ
failed = err 1

abbrev failed_too : Result ℕ Bool
failed_too = err 2

set_twice :
    (both failed failed_too (false ∷ true ∷ []) (init 0 false)).shared.sets ≡ err 2 ∷ err 1 ∷ []
unfolding both step act start set_promise store_x store_y fetch_sub_value release_ref init construct
set_twice = refl

abbrev seven : Result ℕ ℕ
seven = ok 7

abbrev so : Result ℕ Bool
so = ok true

both_settles_example :
    let w =
      both seven so
        (true ∷ true ∷ true ∷ true ∷ false ∷ false ∷ false ∷ false ∷ [])
        (both seven so (false ∷ true ∷ []) (init 0 false)) in
    (w.shared.sets ≡ ok (7, true) ∷ [])
    × (w.shared.counter.is_deleted ≡ true)
    × (w.shared.counter.fault ≡ false)
both_settles_example = both_settles seven so 0 false (false ∷ true ∷ [])
