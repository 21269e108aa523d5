-- ===== src/LockFree/SplitStack/Steps.antt =====
-- Each step of a thread in tasks/lockfree/stack/lock_free_stack.hpp keeps the counters in balance with
-- the references of that thread and the rest, and the history with what is linked.
use concurrency_course_by_li.Base.{
  ℕ, suc, ◌+◌, ◌<◌, ◌≡◌, refl, sym, ap, ◌∙◌, subst, ◌⊎◌, inl, inr, true, Option, none, some, List,
  [], ◌∷◌, arith, ==_iff, Bool-cases,
}
use concurrency_course_by_li.LockFree.SplitStack.{
  Stack, pushed, popped, Pc, outside, returned, linking, popping, acquired, failing, taking, add32,
  minus_one, same_ptr, new_node, use_node, set_next, raise_stamp, add_inner,
}
use concurrency_course_by_li.LockFree.SplitStack.Chain.{
  Linked, occurs, stamps_in, values_in, replay, add_event, Linked-update, values_in-update,
  stamps-free,
}
use concurrency_course_by_li.LockFree.SplitStack.Balance.{
  refs, takes, taken_stamp, pushes, Totals, State, Sane, join,
}

pub same_ptr_eq : (p q : Option ℕ) → same_ptr p q ≡ true → p ≡ q
unfolding same_ptr
same_ptr_eq none none e = refl
same_ptr_eq none (some b) e = absurd (ground arith)
same_ptr_eq (some a) none e = absurd (ground arith)
same_ptr_eq (some a) (some b) e = ap (λ o. some o) ((==_iff a b).0 e)

module _ (k : ℕ) (early : k < 65535) (r : Totals) (h : Stack) (c : List (ℕ × ℕ)) where
  -- The node that the thread uses exists.
  pub use-State :
      (a : ℕ) (p : Pc)
      → (refs a p ≡ 1) ⊎ (pushes a p ≡ 1)
      → State k (join r p) h c
      → State k (join r p) (use_node a h) c
  unfolding use_node
  use-State a p used s = record {
    each = λ o. ground (arith, s.each o);
    linked = s.linked;
    log = s.log;
    no_fault = elim used [
      | inl e ↦ ground (arith, e, s.each a, s.no_fault)
      | inr e ↦ ground (arith, e, s.each a, s.no_fault)
    ];
  }

  -- Nothing but the threads' own places changes.
  pub rest-State :
      (x y : Totals)
      → ((o : ℕ)
          → (x.refs o ≡ y.refs o)
            × (x.takers o ≡ y.takers o)
            × (x.stamps o ≡ y.stamps o)
            × (x.pushers o ≡ y.pushers o))
      → State k x h c
      → State (suc k) y h c
  rest-State x y same s = record {
    each = λ o. ground (arith, same o, s.each o);
    linked = s.linked;
    log = s.log;
    no_fault = s.no_fault;
  }

  pub new_node-State :
      (v a : ℕ)
      → Sane (join r outside)
      → State k (join r outside) h c
      → State (suc k) (join r (new_node v a h).1) (new_node v a h).0 c
  unfolding new_node
  new_node-State v a old s = elim (Bool-cases (h.alive a)) [
    | inl e ↦ rw e (rest-State _ _ (λ o. ground arith) s)
    | inr e ↦
        let out : occurs a c ≡ 0 = ground (arith, e, s.each a) in
        rw e (record {
          each = λ o.
              ground (arith, e, s.each o, s.each a, stamps-free o c, old.pending o, old.held a);
          linked = Linked-update h.next_ptr h.next_stamp a none 0 c _ _ out s.linked;
          log = s.log ∙ ap (λ l. some l) (sym (values_in-update h.value a v c out));
          no_fault = s.no_fault;
        })
  ]

  pub set_next-State :
      (a : ℕ) (p : Pc)
      → pushes a p ≡ 1
      → ((o : ℕ) → pushes o p ≡ pushes o (linking a))
      → ((o : ℕ) → refs o p ≡ 0)
      → ((o : ℕ) → takes o p ≡ 0)
      → ((o : ℕ) → taken_stamp o p ≡ 0)
      → State k (join r p) h c
      → State (suc k) (join r (linking a)) (set_next a h) c
  unfolding set_next
  set_next-State a p here same no_ref no_take no_stamp s =
      let out : occurs a c ≡ 0 = ground (arith, here, s.each a) in
      record {
        each = λ o. ground (arith, s.each o, same o, no_ref o, no_take o, no_stamp o);
        linked = Linked-update h.next_ptr h.next_stamp a h.head_ptr h.head_stamp c _ _ out s.linked;
        log = s.log;
        no_fault = s.no_fault;
      }

  -- The node becomes the first of the chain.
  pub push-State :
      (a : ℕ)
      → h.head_ptr ≡ h.next_ptr a
      → h.head_stamp ≡ h.next_stamp a
      → State k (join r (linking a)) h c
      → State
          (suc k)
          (join r outside)
          (record h { head_ptr = some a; head_stamp = 0; history = pushed (h.value a) ∷ h.history })
          ((a, 0) ∷ c)
  unfolding Linked occurs stamps_in values_in replay add_event
  push-State a ep es s = record {
    each = λ o. ground (arith, s.each o, stamps-free o c);
    linked = (
      refl,
      refl,
      subst (λ p. Linked h.next_ptr h.next_stamp p (h.next_stamp a) c) ep
          (subst (λ t. Linked h.next_ptr h.next_stamp h.head_ptr t c) es s.linked),
    );
    log = rw s.log refl;
    no_fault = s.no_fault;
  }

  pub fail-State :
      (a : ℕ)
      → Sane (join r (failing a))
      → Sane (join r popping)
      → State k (join r (failing a)) h c
      → State (suc k) (join r popping) (add_inner a minus_one h) c
  unfolding add_inner
  fail-State a old new st = record {
    each = λ o.
        ground (arith, early, st.each o, stamps-free o c, old.pending o, old.held o, new.held o);
    linked = st.linked;
    log = st.log;
    no_fault = st.no_fault;
  }

  pub take-State :
      (a s v : ℕ) (answer : Option ℕ)
      → Sane (join r (taking a s v))
      → Sane (join r (returned answer))
      → State k (join r (taking a s v)) h c
      → State (suc k) (join r (returned answer)) (add_inner a (add32 s minus_one) h) c
  unfolding add_inner
  take-State a s v answer old new st = record {
    each = λ o. ground (
      arith,
      early,
      st.each o,
      stamps-free o c,
      old.pending o,
      old.held o,
      new.pending o,
      new.held o,
    );
    linked = st.linked;
    log = st.log;
    no_fault = st.no_fault;
  }

-- The steps that change the first node of the chain.
module _ (k : ℕ) (early : k < 65535) (r : Totals) (h : Stack) where
  -- It leaves the chain.
  pub pop-State :
      (c : List (ℕ × ℕ)) (a s : ℕ)
      → h.head_ptr ≡ some a
      → h.head_stamp ≡ s
      → Sane (join r (acquired a s))
      → State k (join r (acquired a s)) h c
      → (c' : List (ℕ × ℕ)) × State
          (suc k)
          (join r (taking a s (h.value a)))
          (record h {
            head_ptr = h.next_ptr a;
            head_stamp = h.next_stamp a;
            history = popped (h.value a) ∷ h.history;
          })
          c'
  unfolding Linked occurs stamps_in values_in replay add_event
  pop-State [] a s ep es old st = absurd (ground (arith, ep, st.linked))
  pop-State ((b, t) ∷ c') a s ep es old st =
      let eb : b ≡ a = ground (arith, ep, st.linked.0) in
      let et : t ≡ s = ground (arith, es, st.linked.1) in
      (
        c',
        record {
          each = λ o. ground (arith, eb, et, st.each o, stamps-free o c', old.pending o);
          linked =
              subst (λ x. Linked h.next_ptr h.next_stamp (h.next_ptr x) (h.next_stamp x) c') eb
                st.linked.2;
          log = rw st.log (ground (arith, ap h.value eb));
          no_fault = st.no_fault;
        },
      )

  pub raise_stamp-State :
      (c : List (ℕ × ℕ)) (p : Option ℕ)
      → h.head_ptr ≡ p
      → Sane (join r popping)
      → State k (join r popping) h c
      → (c' : List (ℕ × ℕ)) × State (suc k) (join r (raise_stamp p h).1) (raise_stamp p h).0 c'
  unfolding raise_stamp Linked occurs stamps_in values_in
  raise_stamp-State c none e old st = (c, rest-State k early r h c _ _ (λ o. ground arith) st)
  raise_stamp-State [] (some a) e old st = absurd (ground (arith, e, st.linked))
  raise_stamp-State ((b, t) ∷ c') (some a) e old st =
      let eb : b ≡ a = ground (arith, e, st.linked.0) in
      (
        (b, t + 1) ∷ c',
        record {
          each = λ o. ground (arith, early, eb, st.each o, old.pending o, old.held o);
          linked = (st.linked.0, ap (λ x. x + 1) st.linked.1, st.linked.2);
          log = st.log;
          no_fault = st.no_fault;
        },
      )
