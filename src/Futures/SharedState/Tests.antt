-- ===== src/Futures/SharedState/Tests.antt =====
-- Runs of the shared state of tasks/futures/fun/exe/futures/state/shared_state.hpp: executor 0, result
-- 7, callback 3.
use concurrency_course_by_li.Base.{ℕ, ◌≡◌, refl, ◌≢◌, ◌⊎◌, Bool, false, List, [], ◌∷◌, ◌++◌, arith}
use concurrency_course_by_li.Threads.{run}
use concurrency_course_by_li.Futures.SharedState.{
  Race, set_crashed, use_callback, use_crashed, use_get, use_asleep, use_got, step, init,
}
use concurrency_course_by_li.Futures.SharedState.Once.{callback_once, callback_at_most_once}
use concurrency_course_by_li.Futures.SharedState.Waiting.{sync_get_result, sync_get_returns}

-- The callback is set between the result and the first exchange.
abbrev mixed : List (ℕ × Bool)
mixed =
    (0, false) ∷ (1, false) ∷ (0, false) ∷ (0, false) ∷ (1, false) ∷ (0, false) ∷ (1, false) ∷ []

abbrev after_mixed : Race ℕ ℕ ℕ
after_mixed = run step 2 mixed (init 0 7 (use_callback 3))

callback_once_example : after_mixed.shared.submitted ≡ (0, 7, 3) ∷ []
callback_once_example = callback_once 0 7 3 mixed (omega arith) (omega arith)

callback_at_most_once_example :
    ((after_mixed.shared.submitted ≡ []) ⊎ (after_mixed.shared.submitted ≡ (0, 7, 3) ∷ []))
    × (after_mixed.setter ≢ set_crashed)
    × (after_mixed.user ≢ use_crashed)
callback_at_most_once_example = callback_at_most_once 0 7 3 mixed

-- The consumer sleeps before the result is set.
abbrev started : Race ℕ ℕ ℕ
started = init 0 7 use_get

abbrev sleepy : List (ℕ × Bool)
sleepy = (1, false) ∷ (0, false) ∷ (0, false) ∷ []

sleepy_start : (run step 2 ((1, false) ∷ []) started).user ≡ use_asleep
unfolding run step
sleepy_start = refl

sync_get_returns_example : (step 1 false (run step 2 sleepy started)).user ≡ use_got 7
sync_get_returns_example = sync_get_returns ℕ 0 7 sleepy false (omega arith)

sync_get_result_example : ◌≡◌ {A = ℕ} 7 7
unfolding run step
sync_get_result_example = sync_get_result {E = ℕ} {R = ℕ} ℕ 0 7 (sleepy ++ ((1, false) ∷ [])) 7 refl
