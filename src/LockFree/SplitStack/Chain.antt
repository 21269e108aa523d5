-- ===== src/LockFree/SplitStack/Chain.antt =====
-- The nodes of tasks/lockfree/stack/lock_free_stack.hpp that are linked from `head_`, and the stack
-- that the history of exchanges describes.
use concurrency_course_by_li.Base.{
  ℕ, ◌+◌, ◌≡◌, refl, ap, false, Option, none, some, List, [], ◌∷◌, arith, ◌==◌, if◌then◌else◌,
}
use concurrency_course_by_li.Threads.{update}
use concurrency_course_by_li.LockFree.SplitStack.{Event, pushed, popped}

-- Nodes and stamps from a pointer and its stamp on.
unfoldable pub Linked : (ℕ → Option ℕ) → (ℕ → ℕ) → Option ℕ → ℕ → List (ℕ × ℕ) → Type 0
Linked next stamp p s [] = p ≡ none
Linked next stamp p s ((a, t) ∷ c) = (p ≡ some a) × (s ≡ t) × Linked next stamp (next a) (stamp a) c

unfoldable pub occurs : ℕ → List (ℕ × ℕ) → ℕ
occurs o [] = 0
occurs o ((a, t) ∷ c) = (if a == o then 1 else 0) + occurs o c

unfoldable pub stamps_in : ℕ → List (ℕ × ℕ) → ℕ
stamps_in o [] = 0
stamps_in o ((a, t) ∷ c) = (if a == o then t else 0) + stamps_in o c

unfoldable pub values_in : (ℕ → ℕ) → List (ℕ × ℕ) → List ℕ
values_in value [] = []
values_in value ((a, t) ∷ c) = value a ∷ values_in value c

-- A node that is not linked may change.
pub Linked-update :
    (next : ℕ → Option ℕ) (stamp : ℕ → ℕ) (a : ℕ) (q : Option ℕ) (t : ℕ) (c : List (ℕ × ℕ))
    (p : Option ℕ) (s : ℕ)
    → occurs a c ≡ 0
    → Linked next stamp p s c
    → Linked (update next a q) (update stamp a t) p s c
unfolding Linked occurs
Linked-update next stamp a q t [] p s out l = l
Linked-update next stamp a q t ((b, u) ∷ c) p s out (e, e', l) =
    let ne : (a == b) ≡ false = ground (arith, out) in
    (e, e', rw ne (Linked-update next stamp a q t c _ _ (omega (arith, out)) l))

pub values_in-update :
    (value : ℕ → ℕ) (a v : ℕ) (c : List (ℕ × ℕ))
    → occurs a c ≡ 0
    → values_in (update value a v) c ≡ values_in value c
unfolding values_in occurs
values_in-update value a v [] out = refl
values_in-update value a v ((b, u) ∷ c) out =
    let ne : (a == b) ≡ false = ground (arith, out) in
    rw ne (ap (λ l. value b ∷ l) (values_in-update value a v c (omega (arith, out))))

pub stamps-free : (o : ℕ) (c : List (ℕ × ℕ)) → occurs o c ≡ 0 → stamps_in o c ≡ 0
unfolding occurs stamps_in
stamps-free o [] e = refl
stamps-free o ((a, t) ∷ c) e = ground (arith, stamps-free o c)

-- What an event makes of a stack: it puts a value there, or takes it away from its top.
unfoldable pub add_event : Event → Option (List ℕ) → Option (List ℕ)
add_event (pushed v) (some l) = some (v ∷ l)
add_event (popped v) (some (u ∷ l)) = if u == v then some l else none
add_event _ _ = none

unfoldable pub replay : List Event → Option (List ℕ)
unfolding add_event
replay [] = some []
replay (e ∷ es) = add_event e (replay es)
