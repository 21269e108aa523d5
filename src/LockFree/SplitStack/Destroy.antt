-- ===== src/LockFree/SplitStack/Destroy.antt =====
-- The destructor in tasks/lockfree/stack/lock_free_stack.hpp deletes every node of the chain once.
use concurrency_course_by_li.Base.{
  ℕ, zero, suc, ◌≤◌, ◌≡◌, subst, false, Option, none, some, List, [], ◌∷◌, arith, ltb, length,
}
use concurrency_course_by_li.Threads.{update}
use concurrency_course_by_li.LockFree.SplitStack.{Stack, use_node, destroy}
use concurrency_course_by_li.LockFree.SplitStack.Chain.{Linked, occurs}

pub destroy_lem :
    (fuel : ℕ) (p : Option ℕ) (s : ℕ) (h : Stack) (c : List (ℕ × ℕ))
    → Linked h.next_ptr h.next_stamp p s c
    → ((o : ℕ) → (occurs o c ≤ 1) × (h.alive o ≡ ltb 0 (occurs o c)))
    → h.fault ≡ false
    → length c ≤ fuel
    → (o : ℕ) → ((destroy fuel p h).alive o ≡ false) × ((destroy fuel p h).fault ≡ false)
unfolding destroy Linked occurs use_node
destroy_lem zero p s h [] l each ok enough o = ground (arith, each o, ok)
destroy_lem zero p s h ((a, t) ∷ c) l each ok enough o = absurd (omega arith)
destroy_lem (suc fuel) none s h [] l each ok enough o = ground (arith, each o, ok)
destroy_lem (suc fuel) (some b) s h [] l each ok enough o = absurd (ground (arith, l))
destroy_lem (suc fuel) none s h ((a, t) ∷ c) l each ok enough o = absurd (ground (arith, l.0))
destroy_lem (suc fuel) (some b) s h ((a, t) ∷ c) l each ok enough o =
    let e : a ≡ b = ground (arith, l.0) in
    destroy_lem fuel (h.next_ptr b) (h.next_stamp b)
      (record (use_node b h) { alive = update h.alive b false }) c
      (subst (λ x. Linked h.next_ptr h.next_stamp (h.next_ptr x) (h.next_stamp x) c) e l.2)
      (λ x. ground (arith, e, each x)) (ground (arith, e, each b, ok)) (omega arith) o
