-- ===== src/LockFree/SplitStack/Moves.antt =====
-- A turn of a thread in tasks/lockfree/stack/lock_free_stack.hpp, whatever it does.
use concurrency_course_by_li.Base.{
  ℕ, suc, ◌<◌, refl, inl, inr, Bool, not, ◌&&◌, some, List, ◌∷◌, arith, ◌==◌, Bool-cases,
}
use concurrency_course_by_li.LockFree.SplitStack.{
  Stack, Pc, outside, returned, pushing, linking, popping, acquired, failing, taking, Call,
  call_push, call_pop, same_ptr, use_node, push_exchange, pop_exchange, act,
}
use concurrency_course_by_li.LockFree.SplitStack.Balance.{Totals, State, Sane, join}
use concurrency_course_by_li.LockFree.SplitStack.Steps.{
  same_ptr_eq, use-State, rest-State, new_node-State, set_next-State, push-State, fail-State,
  take-State, pop-State, raise_stamp-State,
}

module _ (k : ℕ) (early : k < 65535) (r : Totals) (h : Stack) (c : List (ℕ × ℕ)) where
  -- The thread at `p` is to take the step to `next`.
  abbrev Keeps : Pc → Stack × Pc → Type 0
  Keeps p next =
      Sane (join r p)
      → Sane (join r next.1)
      → State k (join r p) h c
      → (c' : List (ℕ × ℕ)) × State (suc k) (join r next.1) next.0 c'

  linking-Keeps :
      (spurious : Bool) (a : ℕ) → Keeps (linking a) (push_exchange spurious a (use_node a h))
  unfolding push_exchange use_node
  linking-Keeps spurious a old new st =
      let used = use-State k early r h c a (linking a) (inr (ground arith)) st in
      elim (Bool-cases
        (same_ptr h.head_ptr (h.next_ptr a) && h.head_stamp == h.next_stamp a && not spurious)) [
          | inl e ↦ rw e (
            (a, 0) ∷ c,
            push-State k early r (use_node a h) c a (same_ptr_eq _ _ (ground (arith, e)))
                (ground (arith, e)) used,
          )
          | inr e ↦ rw e (
            c,
            set_next-State k early r (use_node a h) c a (linking a) (ground arith) (λ o. refl)
                (λ o. refl) (λ o. refl) (λ o. refl) used,
          )
        ]

  acquired-Keeps :
      (spurious : Bool) (a s : ℕ) → Keeps (acquired a s) (pop_exchange spurious a s (use_node a h))
  unfolding pop_exchange use_node
  acquired-Keeps spurious a s old new st =
      let used = use-State k early r h c a (acquired a s) (inl (ground arith)) st in
      elim (Bool-cases (same_ptr h.head_ptr (some a) && h.head_stamp == s && not spurious)) [
        | inl e ↦ rw e (
            pop-State k early r (use_node a h) c a s (same_ptr_eq _ _ (ground (arith, e)))
              (ground (arith, e)) old used)
        | inr e ↦ rw e (c, rest-State k early r (use_node a h) c _ _ (λ o. ground arith) used)
      ]

  pub act-Keeps : (x : Call) (spurious : Bool) (p : Pc) → Keeps p (act x spurious h p)
  unfolding act use_node
  act-Keeps (call_push v a) spurious outside old new st =
      (c, new_node-State k early r h c v a old st)
  act-Keeps call_pop spurious outside old new st =
      (c, rest-State k early r h c _ _ (λ o. ground arith) st)
  act-Keeps x spurious (returned answer) old new st =
      (c, rest-State k early r h c _ _ (λ o. ground arith) st)
  act-Keeps x spurious (pushing a) old new st = (
    c,
    set_next-State k early r (use_node a h) c a (pushing a) (ground arith) (λ o. refl) (λ o. refl)
        (λ o. refl) (λ o. refl) (use-State k early r h c a (pushing a) (inr (ground arith)) st),
  )
  act-Keeps x spurious (linking a) old new st = linking-Keeps spurious a old new st
  act-Keeps x spurious popping old new st = raise_stamp-State k early r h c h.head_ptr refl old st
  act-Keeps x spurious (acquired a s) old new st = acquired-Keeps spurious a s old new st
  act-Keeps x spurious (failing a) old new st = (
    c,
    fail-State k early r (use_node a h) c a old new
        (use-State k early r h c a (failing a) (inl (ground arith)) st),
  )
  act-Keeps x spurious (taking a s v) old new st = (
    c,
    take-State k early r (use_node a h) c a s v (some (h.value a)) old new
        (use-State k early r h c a (taking a s v) (inl (ground arith)) st),
  )
