-- ===== src/LockFree/SplitStack/Safety.antt =====
-- What the stack of tasks/lockfree/stack/lock_free_stack.hpp promises in every reachable state.
use concurrency_course_by_li.Base.{
  ℕ, ◌+◌, ◌≤◌, ◌<◌, ◌≡◌, refl, sym, ◌∙◌, Bool, true, false, Option, none, some, List, [], ◌∷◌,
  arith, ◌==◌, if◌then◌else◌, length,
}
use concurrency_course_by_li.Threads.{tally, tally-eq-zero, World}
use concurrency_course_by_li.LockFree.SplitStack.{
  Stack, Pc, outside, returned, pushing, linking, popping, acquired, failing, taking, Call,
  raise_stamp, act, destroy, step,
}
use concurrency_course_by_li.LockFree.SplitStack.Chain.{Linked, values_in, replay}
use concurrency_course_by_li.LockFree.SplitStack.Balance.{refs, pushes}
use concurrency_course_by_li.LockFree.SplitStack.Reach.{logged, reached, run-Inv}
use concurrency_course_by_li.LockFree.SplitStack.Destroy.{destroy_lem}

-- Whether a step from `p` to `q` answers `TryPop` as a stack of these values does: that it is empty,
-- or with the value that the exchange took from its top.
abbrev pub answers : Pc → Pc → List ℕ → Bool
answers popping (returned none) [] = true
answers popping (returned none) (v ∷ l) = false
answers (taking a s v) (returned none) l = false
answers (taking a s v) (returned (some u)) l = u == v
answers p q l = true

answers-raise_stamp :
    (p : Option ℕ) (h : Stack) (c : List (ℕ × ℕ))
    → h.head_ptr ≡ p
    → Linked h.next_ptr h.next_stamp h.head_ptr h.head_stamp c
    → answers popping (raise_stamp p h).1 (values_in h.value c) ≡ true
unfolding raise_stamp Linked values_in
answers-raise_stamp none h [] e l = refl
answers-raise_stamp none h ((a, t) ∷ c) e l = absurd (ground (arith, e, l.0))
answers-raise_stamp (some a) h [] e l = refl
answers-raise_stamp (some a) h (x ∷ c) e l = refl

act-answers :
    (x : Call) (spurious : Bool) (h : Stack) (c : List (ℕ × ℕ)) (p : Pc)
    → Linked h.next_ptr h.next_stamp h.head_ptr h.head_stamp c
    → logged h.value p ≡ true
    → answers p (act x spurious h p).1 (values_in h.value c) ≡ true
unfolding act
act-answers x spurious h c popping l e = answers-raise_stamp h.head_ptr h c refl l
act-answers x spurious h c (taking a s v) l e = e
act-answers x spurious h c outside l e = refl
act-answers x spurious h c (returned answer) l e = refl
act-answers x spurious h c (pushing a) l e = refl
act-answers x spurious h c (linking a) l e = refl
act-answers x spurious h c (acquired a s) l e = refl
act-answers x spurious h c (failing a) l e = refl

length-values_in : (value : ℕ → ℕ) (c : List (ℕ × ℕ)) → length (values_in value c) ≡ length c
unfolding values_in
length-values_in value [] = refl
length-values_in value ((a, t) ∷ c) = omega (arith, length-values_in value c)

module _ (n : ℕ) (ts : List (ℕ × (Call × Bool))) (short : length ts ≤ 65535) where
  abbrev w : World Stack Pc
  w = reached n ts

  -- After every schedule of at most 65535 turns of `Push` and `TryPop` by `n` threads, where `new` may
  -- give any address where no node is, no node was used that does not exist, and no thread that is at
  -- an address uses it as a node or is to push it unless there is a node.
  pub stack_no_use_after_delete :
      (o : ℕ)
      → (w.mem.fault ≡ false)
        × ((if w.mem.alive o then 0 else tally (refs o) n w.pc + tally (pushes o) n w.pc) ≡ 0)
  stack_no_use_after_delete o =
      let st = (run-Inv n ts short).state in ground (arith, st.no_fault, st.each o)

  -- After every such schedule, the successful exchanges of `head_` by `Push` and `TryPop`, in their
  -- order and with the values of their nodes, are pushes and pops of a stack; and the next turn of a
  -- thread in `TryPop` answers that there is no value only if that stack is empty, and with a value
  -- only the one that its own exchange took from the top.
  pub stack_lifo :
      (i : ℕ) (x : Call) (spurious : Bool)
      → i < n
      → (l : List ℕ) × (replay w.mem.history ≡ some l)
        × (answers (w.pc i) ((step i (x, spurious) w).pc i) l ≡ true)
  unfolding step
  stack_lifo i x spurious lt =
      let inv = run-Inv n ts short in
      let here : (i == i) ≡ true = ground arith in
      (
        values_in w.mem.value inv.chain,
        inv.state.log,
        rw here (act-answers x spurious w.mem inv.chain (w.pc i) inv.state.linked (inv.logs i lt)),
      )

  -- After every such schedule, if no thread is in a call, the destructor deletes every node that is
  -- left, and uses none that does not exist, if its loop has a round for each value of the stack that
  -- the history describes.
  pub stack_destroy_deletes_all :
      (l : List ℕ) (fuel o : ℕ)
      → ((i : ℕ) → i < n → w.pc i ≡ outside)
      → replay w.mem.history ≡ some l
      → length l ≤ fuel
      → ((destroy fuel w.mem.head_ptr w.mem).alive o ≡ false)
        × ((destroy fuel w.mem.head_ptr w.mem).fault ≡ false)
  stack_destroy_deletes_all l fuel o quiet e enough =
      let inv = run-Inv n ts short in
      let same : some l ≡ some (values_in w.mem.value inv.chain) = sym e ∙ inv.state.log in
      destroy_lem fuel w.mem.head_ptr w.mem.head_stamp w.mem inv.chain inv.state.linked
        (λ x. ground (
          arith,
          inv.state.each x,
          tally-eq-zero (refs x) n w.pc (λ i lt. rw (quiet i lt) refl),
          tally-eq-zero (pushes x) n w.pc (λ i lt. rw (quiet i lt) refl),
        ))
        inv.state.no_fault (ground (arith, same, length-values_in w.mem.value inv.chain)) o
