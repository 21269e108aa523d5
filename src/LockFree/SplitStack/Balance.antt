-- ===== src/LockFree/SplitStack/Balance.antt =====
-- How the counters of the nodes in tasks/lockfree/stack/lock_free_stack.hpp go with the threads that
-- use them.
use concurrency_course_by_li.Base.{
  ℕ, ◌+◌, ◌^◌, ◌≤◌, ◌<◌, ◌≡◌, refl, false, some, List, arith, ltb, ◌==◌, if◌then◌else◌,
}
use concurrency_course_by_li.Threads.{tally, tally-map_le, tally-none}
use concurrency_course_by_li.LockFree.SplitStack.{
  Stack, Pc, pushing, linking, acquired, failing, taking, add32,
}
use concurrency_course_by_li.LockFree.SplitStack.Chain.{
  Linked, occurs, stamps_in, values_in, replay,
}

-- References to the node `o` that `TryPop` has.
abbrev pub refs : ℕ → Pc → ℕ
refs o (acquired a s) = if a == o then 1 else 0
refs o (failing a) = if a == o then 1 else 0
refs o (taking a s v) = if a == o then 1 else 0
refs o _ = 0

-- Who took `o` out of the stack, and the stamp that it had there.
abbrev pub takes : ℕ → Pc → ℕ
takes o (taking a s v) = if a == o then 1 else 0
takes o _ = 0

abbrev pub taken_stamp : ℕ → Pc → ℕ
taken_stamp o (taking a s v) = if a == o then s else 0
taken_stamp o _ = 0

-- Who is to push `o`.
abbrev pub pushes : ℕ → Pc → ℕ
pushes o (pushing a) = if a == o then 1 else 0
pushes o (linking a) = if a == o then 1 else 0
pushes o _ = 0

pub record Totals : Type 0 where
  pub refs : ℕ → ℕ
  pub takers : ℕ → ℕ
  pub stamps : ℕ → ℕ
  pub pushers : ℕ → ℕ

-- The node `o`, within the first `k` turns, where the stack has the chain `c`.
pub record Balance (k : ℕ) (x : Totals) (h : Stack) (c : List (ℕ × ℕ)) (o : ℕ) : Type 0 where
  pub owners : occurs o c + x.takers o + x.pushers o ≤ 1
  pub count : add32 (h.inner_counter o) (stamps_in o c + x.stamps o) ≡ x.refs o
  pub inner_small : h.inner_counter o < 2 ^ 32
  pub stamps_small : stamps_in o c + x.stamps o ≤ k
  pub refs_small : x.refs o ≤ k
  pub covered : 0 < occurs o c + x.takers o → x.refs o ≤ stamps_in o c + x.stamps o
  pub private : 0 < x.pushers o → x.refs o ≡ 0
  pub life : h.alive o ≡ ltb 0 (occurs o c + x.pushers o + x.refs o)

pub record State (k : ℕ) (x : Totals) (h : Stack) (c : List (ℕ × ℕ)) : Type 0 where
  pub each : (o : ℕ) → Balance k x h c o
  pub linked : Linked h.next_ptr h.next_stamp h.head_ptr h.head_stamp c
  pub log : replay h.history ≡ some (values_in h.value c)
  pub no_fault : h.fault ≡ false

-- A stamp is taken by a taker, who has a reference.
pub record Sane (x : Totals) : Type 0 where
  pub pending : (o : ℕ) → x.takers o ≡ 0 → x.stamps o ≡ 0
  pub held : (o : ℕ) → x.takers o ≤ x.refs o

-- The references of a thread, and others.
abbrev pub join : Totals → Pc → Totals
join r p = record {
  refs = λ o. r.refs o + refs o p;
  takers = λ o. r.takers o + takes o p;
  stamps = λ o. r.stamps o + taken_stamp o p;
  pushers = λ o. r.pushers o + pushes o p;
}

abbrev pub totals : ℕ → (ℕ → Pc) → Totals
totals n f = record {
  refs = λ o. tally (refs o) n f;
  takers = λ o. tally (takes o) n f;
  stamps = λ o. tally (taken_stamp o) n f;
  pushers = λ o. tally (pushes o) n f;
}

takes-refs : (o : ℕ) (p : Pc) → takes o p ≤ refs o p
takes-refs o (taking a s v) = ground arith
takes-refs o _ = ground arith

tally-takes : (o n : ℕ) (f : ℕ → Pc) → tally (takes o) n f ≤ tally (refs o) n f
tally-takes o n f = tally-map_le (takes o) (refs o) (λ p. p) (takes-refs o) n f

takes-stamp : (o : ℕ) (p : Pc) → takes o p ≡ 0 → taken_stamp o p ≡ 0
takes-stamp o (taking a s v) e = ground (arith, e)
takes-stamp o _ e = refl

pub totals-Sane : (n : ℕ) (f : ℕ → Pc) → Sane (totals n f)
totals-Sane n f = record {
  pending = λ o. tally-none (takes o) (taken_stamp o) (takes-stamp o) n f;
  held = λ o. tally-takes o n f;
}
