-- ===== src/Memory/Refer/Tests.antt =====
-- Programs over the references of tasks/tasks/executors/exe/support/refer.
use concurrency_course_by_li.Base.{
  ℕ, ◌+◌, ◌<◌, ◌≡◌, refl, ◌⊎◌, true, false, none, some, List, [], ◌∷◌, ◌++◌, arith,
}
use concurrency_course_by_li.Threads.{tally, run}
use concurrency_course_by_li.Memory.Refer.{
  Call, call_new, call_reset, call_release, call_adopt, call_copy, call_move, call_assign, step,
  create, assign, release_valid, add_valid, release, release_raw, move_construct, reset,
  get_ref_count,
}
use concurrency_course_by_li.Memory.Refer.Counts.{points}
use concurrency_course_by_li.Memory.Refer.Lifetime.{refer_lifetime}

-- Objects 0 and 1 are made; 0 is copied, released as a plain pointer, adopted again and moved; then
-- the `Ref`s to 0 are assigned and destroyed.
abbrev program : List (ℕ × Call)
program =
    (0, call_new)
    ∷ (1, call_new)
    ∷ (2, call_copy 0)
    ∷ (0, call_release)
    ∷ (0, call_adopt 0)
    ∷ (3, call_move 2)
    ∷ (3, call_assign 1)
    ∷ []

abbrev last_ref_gone : List (ℕ × Call)
last_ref_gone = program ++ ((0, call_reset) ∷ [])

program_state :
    let s = run (step 4) 4 program create in
    (s.refs 0 ≡ some 0)
    × (s.refs 2 ≡ none)
    × (s.refs 3 ≡ some 1)
    × (s.counts 0 ≡ 1)
    × (s.counts 1 ≡ 2)
unfolding run step assign release_valid add_valid release release_raw move_construct reset
program_state = (refl, refl, refl, refl, refl)

object_0_deleted : (run (step 4) 4 last_ref_gone create).alive 0 ≡ false
unfolding run step assign release_valid add_valid release release_raw move_construct reset
object_0_deleted = refl

refer_lifetime_example :
    let s = run (step 4) 4 last_ref_gone create in
    let owners = tally (points 1) 4 s.refs + s.raw 1 in
    (s.fault ≡ false)
    × (get_ref_count 1 s ≡ owners)
    × (((s.alive 1 ≡ true) × (0 < owners)) ⊎ ((s.alive 1 ≡ false) × (owners ≡ 0)))
refer_lifetime_example = refer_lifetime 4 last_ref_gone (omega arith) 1
