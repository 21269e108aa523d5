-- ===== src/LockFree/SplitStack/Reach.antt =====
-- What every schedule of tasks/lockfree/stack/lock_free_stack.hpp keeps.
use concurrency_course_by_li.Base.{
  ℕ, suc, ◌≤◌, ◌<◌, ◌≡◌, refl, sym, subst, inl, inr, Bool, true, Option, none, some, List, [],
  arith, ◌==◌, Bool-cases, length,
}
use concurrency_course_by_li.Threads.{
  update, le-tally, tally-eq-zero, others, others_add, others-update, run_inv_timed, World, run,
}
use concurrency_course_by_li.LockFree.SplitStack.{
  Stack, Pc, outside, returned, pushing, linking, popping, acquired, failing, taking, Call,
  call_push, call_pop, new_node, use_node, set_next, push_exchange, raise_stamp, pop_exchange,
  add_inner, act, step, init,
}
use concurrency_course_by_li.LockFree.SplitStack.Chain.{
  Linked, occurs, stamps_in, values_in, replay,
}
use concurrency_course_by_li.LockFree.SplitStack.Balance.{
  totals, totals-Sane, refs, takes, taken_stamp, pushes, Totals, State, Sane, join,
}
use concurrency_course_by_li.LockFree.SplitStack.Moves.{act-Keeps}

-- What was put into the history is in the node that was taken.
abbrev pub logged : (ℕ → ℕ) → Pc → Bool
logged value (taking a s v) = value a == v
logged value _ = true

act-logged :
    (x : Call) (spurious : Bool) (h : Stack) (p : Pc)
    → logged (act x spurious h p).0.value (act x spurious h p).1 ≡ true
unfolding act new_node push_exchange raise_stamp pop_exchange
act-logged (call_push v a) spurious h outside = ground arith
act-logged call_pop spurious h outside = refl
act-logged x spurious h (returned answer) = refl
act-logged x spurious h (pushing a) = refl
act-logged x spurious h (linking a) = ground arith
act-logged x spurious h popping = raise_stamp-logged h.head_ptr
  where
    raise_stamp-logged :
        (p : Option ℕ) → logged (raise_stamp p h).0.value (raise_stamp p h).1 ≡ true
    raise_stamp-logged none = refl
    raise_stamp-logged (some a) = refl
act-logged x spurious h (acquired a s) = ground arith
act-logged x spurious h (failing a) = refl
act-logged x spurious h (taking a s v) = refl

-- A node's value stays as long as the node exists.
act-value :
    (x : Call) (spurious : Bool) (h : Stack) (p : Pc) (o : ℕ)
    → h.alive o ≡ true
    → (act x spurious h p).0.value o ≡ h.value o
unfolding act new_node push_exchange raise_stamp pop_exchange use_node set_next add_inner
act-value (call_push v a) spurious h outside o e = ground (arith, e)
act-value call_pop spurious h outside o e = refl
act-value x spurious h (returned answer) o e = refl
act-value x spurious h (pushing a) o e = refl
act-value x spurious h (linking a) o e = ground arith
act-value x spurious h popping o e = raise_stamp-value h.head_ptr
  where
    raise_stamp-value : (p : Option ℕ) → (raise_stamp p h).0.value o ≡ h.value o
    raise_stamp-value none = refl
    raise_stamp-value (some a) = refl
act-value x spurious h (acquired a s) o e = ground arith
act-value x spurious h (failing a) o e = refl
act-value x spurious h (taking a s v) o e = refl

logged-value :
    (h g : ℕ → ℕ) (p : Pc)
    → ((a s v : ℕ) → p ≡ taking a s v → g a ≡ h a)
    → logged h p ≡ true
    → logged g p ≡ true
logged-value h g (taking a s v) same e = rw (same a s v refl) e
logged-value h g outside same e = refl
logged-value h g (returned answer) same e = refl
logged-value h g (pushing a) same e = refl
logged-value h g (linking a) same e = refl
logged-value h g popping same e = refl
logged-value h g (acquired a s) same e = refl
logged-value h g (failing a) same e = refl

pub record Inv (n k : ℕ) (w : World Stack Pc) : Type 0 where
  pub chain : List (ℕ × ℕ)
  pub state : State k (totals n w.pc) w.mem chain
  pub logs : (i : ℕ) → i < n → logged w.mem.value (w.pc i) ≡ true

-- What all threads but `i` have.
abbrev rest : ℕ → (ℕ → Pc) → ℕ → Totals
rest n f i = record {
  refs = λ o. others (refs o) n f i;
  takers = λ o. others (takes o) n f i;
  stamps = λ o. others (taken_stamp o) n f i;
  pushers = λ o. others (pushes o) n f i;
}

abbrev Same : Totals → Totals → Type 0
Same x y =
    (o : ℕ)
    → (x.refs o ≡ y.refs o)
      × (x.takers o ≡ y.takers o)
      × (x.stamps o ≡ y.stamps o)
      × (x.pushers o ≡ y.pushers o)

join-rest :
    (n : ℕ) (f : ℕ → Pc) (i : ℕ) (p : Pc)
    → i < n
    → Same (join (rest n f i) p) (totals n (update f i p))
join-rest n f i p lt o = (
  others-update (refs o) n f i p lt,
  others-update (takes o) n f i p lt,
  others-update (taken_stamp o) n f i p lt,
  others-update (pushes o) n f i p lt,
)

rest-join : (n : ℕ) (f : ℕ → Pc) (i : ℕ) → i < n → Same (totals n f) (join (rest n f i) (f i))
rest-join n f i lt o = (
  sym (others_add (refs o) n f i lt),
  sym (others_add (takes o) n f i lt),
  sym (others_add (taken_stamp o) n f i lt),
  sym (others_add (pushes o) n f i lt),
)

flip : (x y : Totals) → Same x y → Same y x
flip x y same o = ground (arith, same o)

shift-Sane : (x y : Totals) → Same x y → Sane x → Sane y
shift-Sane x y same s = record {
  pending = λ o. ground (arith, same o, s.pending o);
  held = λ o. ground (arith, same o, s.held o);
}

shift-State :
    (k : ℕ) (x y : Totals) (h : Stack) (c : List (ℕ × ℕ)) → Same x y → State k x h c → State k y h c
shift-State k x y h c same s = record {
  each = λ o. ground (arith, same o, s.each o);
  linked = s.linked;
  log = s.log;
  no_fault = s.no_fault;
}

step-Inv :
    (n k i : ℕ) (c : Call × Bool) (w : World Stack Pc)
    → k < 65535
    → i < n
    → Inv n k w
    → Inv n (suc k) (step i c w)
unfolding step
step-Inv n k i (x, spurious) w early lt inv =
    let p = w.pc i in
    let next = act x spurious w.mem p in
    let r = rest n w.pc i in
    let after = join-rest n w.pc i next.1 lt in
    let before = rest-join n w.pc i lt in
    let (chain', state') =
      act-Keeps k early r w.mem inv.chain x spurious p (shift-Sane _ _ before (totals-Sane n w.pc))
        (shift-Sane _ _ (flip (join r next.1) _ after) (totals-Sane n (update w.pc i next.1)))
        (shift-State k _ _ w.mem inv.chain before inv.state) in
    record {
      chain = chain';
      state = shift-State (suc k) _ _ next.0 chain' after state';
      logs = λ j lt_j. elim (Bool-cases (i == j)) [
        | inl eq ↦ rw eq (act-logged x spurious w.mem p)
        | inr ne ↦ rw ne (
            logged-value w.mem.value next.0.value (w.pc j)
              (λ a s v e.
                act-value x spurious w.mem p a
                  (ground (arith, e, inv.state.each a, le-tally (refs a) n w.pc j lt_j)))
              (inv.logs j lt_j))
      ];
    }

-- What holds after every schedule of at most 65535 turns.
abbrev pub reached : ℕ → List (ℕ × (Call × Bool)) → World Stack Pc
reached n ts = run step n ts init

init-Inv : (n : ℕ) → Inv n 0 init
unfolding Linked occurs stamps_in values_in replay
init-Inv n = record {
  chain = [];
  state = record {
    each = λ o. ground (
      arith,
      tally-eq-zero (refs o) n (λ _. outside) (λ j lt. refl),
      tally-eq-zero (takes o) n (λ _. outside) (λ j lt. refl),
      tally-eq-zero (taken_stamp o) n (λ _. outside) (λ j lt. refl),
      tally-eq-zero (pushes o) n (λ _. outside) (λ j lt. refl),
    );
    linked = refl;
    log = refl;
    no_fault = refl;
  };
  logs = λ i lt. refl;
}

later-Inv : (n k : ℕ) (w : World Stack Pc) → Inv n k w → Inv n (suc k) w
later-Inv n k w inv = record {
  chain = inv.chain;
  state = record {
    each = λ o. ground (arith, inv.state.each o);
    linked = inv.state.linked;
    log = inv.state.log;
    no_fault = inv.state.no_fault;
  };
  logs = inv.logs;
}

pub run-Inv :
    (n : ℕ) (ts : List (ℕ × (Call × Bool))) → length ts ≤ 65535 → Inv n (length ts) (reached n ts)
run-Inv n ts short =
    subst (λ k. Inv n k (reached n ts)) (omega arith)
      (run_inv_timed step n (Inv n) 65535 (λ k i c w early lt h. step-Inv n k i c w early lt h)
        (later-Inv n) ts 0 init (omega arith) (init-Inv n))
