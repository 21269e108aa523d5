-- ===== src/LockFree/SplitStack.antt =====
-- tasks/lockfree/stack/lock_free_stack.hpp: a Treiber stack whose nodes count their readers in two
-- parts, the stamp of the pointer to the node and the node's `inner_counter`. The stamped pointer is
-- one cell, as LockFree.StampedPtr shows it to be. The loop of `TryPop` that raises the stamp is one
-- step, the one in which the compare-exchange succeeds.
pub mod Chain
pub mod Balance
pub mod Steps
pub mod Moves
pub mod Reach
pub mod Destroy
pub mod Safety
mod Tests
use concurrency_course_by_li.Base.{
  ℕ, zero, suc, ◌+◌, ◌-◌, ◌*◌, ◌/◌, ◌%◌, ◌^◌, ◌≤◌, ◌<◌, ◌≡◌, refl, sym, ap, ◌∙◌, subst, ◌≢◌, ◌↔◌,
  ◌⊎◌, inl, inr, Bool, true, false, not, ◌&&◌, ◌||◌, Option, none, some, List, [], ◌∷◌, ◌++◌, map,
  append_assoc, append-nil, arith, ltb, leb, ◌==◌, if◌then◌else◌, ltb→lt, lt→ltb, ==_iff,
  Bool-cases, Option-cases, length, length-append, size_mod, wrap_add, wrap_sub,
}
use concurrency_course_by_li.Threads.{
  update, tally, tally-all, tally-update, le-tally, add-le-tally, tally-eq-zero, of_tally-eq-zero,
  member_of_tally, others, others_add, others-update, tally-map, tally-map_le, tally-alone,
  tally-none, add-tally-le, run_inv_timed, World, commit, turn, run, run_inv,
}

-- An `int` is its bit pattern.
abbrev pub add32 : ℕ → ℕ → ℕ
add32 a b = (a + b) % 2 ^ 32

abbrev pub minus_one : ℕ
minus_one = 2 ^ 32 - 1

pub data Event : Type 0 where
  pushed popped : (v : ℕ) → Event

-- The nodes by their addresses, and `head_`. Not in the source: which nodes exist, whether one was used
-- that does not, and the successful exchanges of `head_` by `Push` and `TryPop` with the values of
-- the nodes, the last one first.
pub record Stack : Type 0 where
  pub value : ℕ → ℕ
  pub next_ptr : ℕ → Option ℕ
  pub next_stamp : ℕ → ℕ
  pub inner_counter : ℕ → ℕ
  pub head_ptr : Option ℕ
  pub head_stamp : ℕ
  pub alive : ℕ → Bool
  pub fault : Bool
  pub history : List Event

-- Where a thread stands: outside any call; with the answer of `TryPop`; in `Push` with its new node,
-- before and after the first load of `head_`; in `TryPop` before it raises the stamp, with what it has
-- read then, and behind a failed or a successful exchange. Not in the source: the value that the
-- exchange has put into the history.
pub data Pc : Type 0 where
  outside : Pc
  returned : (answer : Option ℕ) → Pc
  pushing linking : (node : ℕ) → Pc
  popping : Pc
  acquired : (node stamp : ℕ) → Pc
  failing : (node : ℕ) → Pc
  taking : (node stamp logged : ℕ) → Pc

-- `Push` of a value, where `new` gives an address; or `TryPop`.
pub data Call : Type 0 where
  call_push : (v address : ℕ) → Call
  call_pop : Call

abbrev pub create : Stack
create = record {
  value = λ _. 0;
  next_ptr = λ _. none;
  next_stamp = λ _. 0;
  inner_counter = λ _. 0;
  head_ptr = none;
  head_stamp = 0;
  alive = λ _. false;
  fault = false;
  history = [];
}

pub same_ptr : Option ℕ → Option ℕ → Bool
same_ptr none none = true
same_ptr (some a) (some b) = a == b
same_ptr _ _ = false

-- `new Node`. No node exists at the address, else the caller is still to get one.
pub new_node : ℕ → ℕ → Stack → Stack × Pc
new_node v a h = if h.alive a then (h, outside) else (
  record h {
    value = update h.value a v;
    next_ptr = update h.next_ptr a none;
    next_stamp = update h.next_stamp a 0;
    inner_counter = update h.inner_counter a 0;
    alive = update h.alive a true;
  },
  pushing a,
)

-- A node that is used must exist.
pub use_node : ℕ → Stack → Stack
use_node a h = record h { fault = h.fault || not (h.alive a) }

-- `new_head->next` becomes what `head_` is.
pub set_next : ℕ → Stack → Stack
set_next a h = record h {
  next_ptr = update h.next_ptr a h.head_ptr;
  next_stamp = update h.next_stamp a h.head_stamp;
}

-- The compare-exchange of `Push`, which writes to `new_head->next` when it fails.
pub push_exchange : Bool → ℕ → Stack → Stack × Pc
unfolding set_next
push_exchange spurious a h =
    if same_ptr h.head_ptr (h.next_ptr a) && h.head_stamp == h.next_stamp a && not spurious
    then (
      record h { head_ptr = some a; head_stamp = 0; history = pushed (h.value a) ∷ h.history },
      outside,
    )
    else (set_next a h, linking a)

-- The inner loop of `TryPop`.
pub raise_stamp : Option ℕ → Stack → Stack × Pc
raise_stamp none h = (h, returned none)
raise_stamp (some a) h = (record h { head_stamp = h.head_stamp + 1 }, acquired a (h.head_stamp + 1))

-- The compare-exchange of `TryPop`.
pub pop_exchange : Bool → ℕ → ℕ → Stack → Stack × Pc
pop_exchange spurious a s h =
    if same_ptr h.head_ptr (some a) && h.head_stamp == s && not spurious
    then (
      record h {
        head_ptr = h.next_ptr a;
        head_stamp = h.next_stamp a;
        history = popped (h.value a) ∷ h.history;
      },
      taking a s (h.value a),
    )
    else (h, failing a)

-- `fetch_add` of the counter of a node, and `delete` if it returns the value where the result is 0.
pub add_inner : ℕ → ℕ → Stack → Stack
add_inner a d h =
    let c = add32 (h.inner_counter a) d in
    record h {
      inner_counter = update h.inner_counter a c;
      alive = if c == 0 then update h.alive a false else h.alive;
    }

-- One step of a thread. `spurious`: whether a weak compare-exchange fails where it might succeed.
pub act : Call → Bool → Stack → Pc → Stack × Pc
unfolding new_node use_node set_next push_exchange raise_stamp pop_exchange add_inner
act (call_push v a) spurious h outside = new_node v a h
act call_pop spurious h outside = (h, popping)
act c spurious h (returned answer) = (h, outside)
act c spurious h (pushing a) = (set_next a (use_node a h), linking a)
act c spurious h (linking a) = push_exchange spurious a (use_node a h)
act c spurious h popping = raise_stamp h.head_ptr h
act c spurious h (acquired a s) = pop_exchange spurious a s (use_node a h)
act c spurious h (failing a) = (add_inner a minus_one (use_node a h), popping)
act c spurious h (taking a s v) =
    (add_inner a (add32 s minus_one) (use_node a h), returned (some (h.value a)))

unfoldable pub step : ℕ → Call × Bool → World Stack Pc → World Stack Pc
unfolding act
step i (c, spurious) w = commit i w (act c spurious w.mem (w.pc i))

abbrev pub init : World Stack Pc
init = record { mem = create; pc = λ _. outside }

-- The loop of the destructor, on fuel.
pub destroy : ℕ → Option ℕ → Stack → Stack
unfolding use_node
destroy zero p h = h
destroy (suc fuel) none h = h
destroy (suc fuel) (some a) h =
    destroy fuel (h.next_ptr a) (record (use_node a h) { alive = update h.alive a false })
