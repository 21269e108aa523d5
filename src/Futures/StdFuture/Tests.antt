-- ===== src/Futures/StdFuture/Tests.antt =====
-- tasks/futures/std/stdlike at work, and its theorems there.
use concurrency_course_by_li.Base.{ℕ, ◌≡◌, refl, Bool, true, false, List, [], ◌∷◌, ◌++◌}
use concurrency_course_by_li.Threads.{run}
use concurrency_course_by_li.Futures.StdFuture.{
  Outcome, returned, thrown, set_value, set_exception, asleep, finished, set_step, get_step, step,
  init, emplace, is_ready, take_result,
}
use concurrency_course_by_li.Futures.StdFuture.Getting.{get_outcome, get_ends}

abbrev sets : ℕ × Bool
sets = (0, false)

abbrev gets : ℕ × Bool
gets = (1, false)

-- `Get` falls asleep between the emplacement and the critical section, and is notified.
abbrev notified : List (ℕ × Bool)
notified = gets ∷ gets ∷ sets ∷ gets ∷ sets ∷ sets ∷ []

abbrev over : List (ℕ × Bool)
over = notified ++ gets ∷ gets ∷ gets ∷ []

falls_asleep :
    (run (step {T = ℕ} {E = ℕ} (set_value 7)) 2 (gets ∷ gets ∷ sets ∷ gets ∷ []) init).get ≡ asleep
unfolding run step set_step get_step emplace is_ready take_result
falls_asleep = refl

abbrev seven : Outcome ℕ ℕ
seven = returned 7

get_outcome_example : seven ≡ returned 7
unfolding run step set_step get_step emplace is_ready take_result
get_outcome_example = get_outcome (set_value 7) over seven refl

get_ends_example :
    let y = run (step {T = ℕ} {E = ℕ} (set_exception 5)) 2 notified init in
    (step
      (set_exception 5)
      1
      true
      (step (set_exception 5) 1 true (step (set_exception 5) 1 true y))).get
    ≡ finished (thrown 5)
unfolding run step set_step get_step emplace is_ready take_result
get_ends_example = get_ends (set_exception 5) notified true true true refl
