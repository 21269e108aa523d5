-- ===== src/Exec/Strand/Follows.antt =====
-- Every step of the strand over the queue of tasks/tasks/executors/exe/support/msqueue.hpp is one of the
-- strand, or none.
use concurrency_course_by_li.Base.{
  ℕ, ◌+◌, ◌-◌, ◌/◌, ◌≡◌, refl, sym, ap, ◌∙◌, subst, inl, inr, Bool, true, false, not, ◌&&◌, Option,
  none, some, List, [], ◌∷◌, ◌++◌, arith, ltb, ◌==◌, Bool-cases, length,
}
use concurrency_course_by_li.Exec.Strand.{
  Strand, outside, linked, run_take, run_taken, crashed, Call, call_submit, call_run, act, put_link,
  take_node,
}
use concurrency_course_by_li.Exec.Strand.Queue.{
  Impl, At, at, putting, put_looking, put_helping, put_linking, swinging, take_loading,
  take_looking, take_moving, marking, Chance, use_node, look_tail, help_tail, link_node, swing_tail,
  look_head, move_item, move_head, collect_garbage, move,
}
use concurrency_course_by_li.Exec.Strand.Links.{
  Links, Fits, same-Links, next_is, no_next, link-Links, take-Links, no_value, collect-Links,
  collect-kept,
}
use concurrency_course_by_li.Exec.Strand.Refine.{Next, stay-Next, at-Next}

module _ {T : Type 0} where
  put_looking-Next :
      (s : Impl T) (v : T) (t : ℕ) (x : Option ℕ)
      → Links s.queue s.strand.tasks
      → Fits s.queue (put_looking v t)
      → Next s (put_looking v t) (record s { queue = use_node t s.queue }, look_tail v t x)
  unfolding look_tail use_node
  put_looking-Next s v t none k f =
      stay-Next s _ _ _ refl (refl, refl, refl, refl, k.tail_in)
        (record { node = f.node; before = omega arith; place = refl }) k
  put_looking-Next s v t (some x) k f =
      stay-Next s _ _ _ refl (refl, refl, refl, refl, k.tail_in)
        (record { node = f.node; before = omega arith; place = refl }) k

  put_helping-Next :
      (s : Impl T) (b : Bool) (v : T) (t : ℕ) (x : Option ℕ)
      → s.queue.next t ≡ x
      → Links s.queue s.strand.tasks
      → Fits s.queue (put_helping v t)
      → let r = help_tail b v t x (use_node t s.queue) in
        Next s (put_helping v t) (record s { queue = r.0 }, r.1)
  unfolding help_tail use_node
  put_helping-Next s b v t none e k f =
      stay-Next s _ _ _ refl (refl, refl, refl, refl, k.tail_in)
        (record { node = ground (arith, f.node); before = omega arith; place = refl }) k
  put_helping-Next s b v t (some x) e k f =
      let (ex, more) = next_is s.queue s.strand.tasks t x k f.node e in
      elim (Bool-cases (s.queue.tail == t && not b)) [
        | inl z ↦ rw z (
            stay-Next s _ _ _ refl (refl, refl, refl, refl, omega (arith, ex, more))
              (record { node = ground (arith, f.node); before = omega arith; place = refl }) k)
        | inr z ↦ rw z (
            stay-Next s _ _ _ refl (refl, refl, refl, refl, k.tail_in)
              (record { node = k.tail_in; before = omega arith; place = refl }) k)
      ]

  put_linking-Next :
      (s : Impl T) (b : Bool) (v : T) (t : ℕ) (x : Option ℕ)
      → s.queue.next t ≡ x
      → Links s.queue s.strand.tasks
      → Fits s.queue (put_linking v t)
      → Next s (put_linking v t) (link_node b v t x (record s { queue = use_node t s.queue }))
  unfolding link_node use_node act put_link
  put_linking-Next s b v t (some x) e k f =
      stay-Next s _ _ _ refl (refl, refl, refl, refl, k.tail_in)
        (record { node = ground (arith, f.node); before = omega arith; place = refl }) k
  put_linking-Next s true v t none e k f =
      stay-Next s _ _ _ refl (refl, refl, refl, refl, k.tail_in)
        (record { node = ground (arith, f.node); before = omega arith; place = refl }) k
  put_linking-Next s false v t none e k f =
      let end : t + 1 ≡ s.queue.nodes = no_next s.queue s.strand.tasks t k f.node e in
      record {
        follows = inr (call_submit v, refl);
        links =
            link-Links (use_node t s.queue) s.strand.tasks t v end
              (same-Links s.queue _ s.strand.tasks (refl, refl, refl, refl, k.tail_in) k);
        fits = record { node = omega arith; before = omega arith; place = refl };
        nodes_grow = omega arith;
        head_grows = omega arith;
      }

  swinging-Next :
      (s : Impl T) (u a : ℕ)
      → Links s.queue s.strand.tasks
      → Fits s.queue (swinging a)
      → Next s (swinging a) (record s { queue = swing_tail u a s.queue }, at linked)
  unfolding swing_tail
  swinging-Next s u a k f = elim (Bool-cases (s.queue.tail == u)) [
    | inl z ↦ rw z (
        stay-Next s _ _ _ refl (refl, refl, refl, refl, f.node)
          (record { node = ground (arith, f.node); before = omega arith; place = refl }) k)
    | inr z ↦ rw z (
        stay-Next s _ _ _ refl (refl, refl, refl, refl, k.tail_in)
          (record { node = ground (arith, f.node); before = omega arith; place = refl }) k)
  ]

  -- Where the list of tasks is empty, the strand has none to take either.
  empty_take :
      (batch : List T) (s : Strand T) (l : List T)
      → s.tasks ≡ l
      → length l ≡ 0
      → act call_run s (run_take batch) ≡ (s, crashed)
  unfolding act take_node
  empty_take batch s [] e z = rw e refl
  empty_take batch s (v ∷ l) e z = absurd (omega (arith, z))

  take_looking-Next :
      (s : Impl T) (batch : List T) (h : ℕ) (x : Option ℕ)
      → s.queue.next h ≡ x
      → Links s.queue s.strand.tasks
      → Fits s.queue (take_looking batch h)
      → Next s (take_looking batch h) (record s { queue = use_node h s.queue }, look_head batch h x)
  unfolding look_head use_node
  take_looking-Next s batch h none e k f =
      let end : h + 1 ≡ s.queue.nodes =
        no_next s.queue s.strand.tasks h k (omega (arith, f.before, k.count)) e in
      let empty : length s.strand.tasks ≡ 0 = omega (arith, end, f.before, k.count) in
      record {
        follows = inr (call_run, empty_take batch s.strand s.strand.tasks refl empty);
        links = same-Links s.queue _ s.strand.tasks (refl, refl, refl, refl, k.tail_in) k;
        fits = record { node = omega (arith, k.tail_in); before = omega arith; place = refl };
        nodes_grow = omega arith;
        head_grows = omega arith;
      }
  take_looking-Next s batch h (some x) e k f =
      stay-Next s _ _ _ refl (refl, refl, refl, refl, k.tail_in)
        (record { node = omega (arith, k.tail_in); before = f.before; place = refl }) k

  take_first :
      (batch : List T) (s : Strand T) (v : T) (rest : List T)
      → s.tasks ≡ v ∷ rest
      → act call_run s (run_take batch) ≡ ((take_node s.tasks batch s).0, run_taken batch v)
  unfolding act take_node
  take_first batch s v rest e = rw e refl

  take_rest :
      (batch : List T) (s : Strand T) (v : T) (rest : List T)
      → s.tasks ≡ v ∷ rest
      → (take_node s.tasks batch s).0.tasks ≡ rest
  unfolding take_node
  take_rest batch s v rest e = rw e refl

  item-Next :
      (s : Impl T) (batch : List T) (x : ℕ) (y : Option T)
      → s.queue.next s.queue.head ≡ some x
      → s.queue.value x ≡ y
      → Links s.queue s.strand.tasks
      → Next s
          (take_moving batch s.queue.head)
          (move_item batch s.queue.head x y (record s { queue = use_node s.queue.head s.queue }))
  unfolding move_item use_node
  item-Next s batch x none e ey k = absurd (no_value s.queue s.strand.tasks x e ey k)
  item-Next s batch x (some v) e ey k =
      let (rest, el, k') = take-Links s.queue s.strand.tasks x v e ey k in
      let (ex, more) = next_is s.queue s.strand.tasks s.queue.head x k (omega (arith, k.count)) e in
      let same_rest = take_rest batch s.strand v rest el in
      record {
        follows = inr (call_run, take_first batch s.strand v rest el);
        links =
            subst (λ l. Links (record (use_node x (use_node s.queue.head s.queue)) { head = x }) l)
              (sym same_rest)
              (record {
                inner = k'.inner;
                last = k'.last;
                tail_in = k'.tail_in;
                holds = k'.holds;
                count = k'.count;
              });
        fits = record { node = omega (arith, k.tail_in); before = omega arith; place = refl };
        nodes_grow = omega arith;
        head_grows = omega (arith, ex);
      }

  take_moving-Next :
      (s : Impl T) (b : Bool) (batch : List T) (h : ℕ) (x : Option ℕ)
      → s.queue.next h ≡ x
      → Links s.queue s.strand.tasks
      → Fits s.queue (take_moving batch h)
      → Next s
          (take_moving batch h)
          (move_head b batch h x (record s { queue = use_node h s.queue }))
  unfolding move_head use_node
  take_moving-Next s b batch h none e k f =
      stay-Next s _ _ _ refl (refl, refl, refl, refl, k.tail_in)
        (record { node = omega (arith, k.tail_in); before = omega arith; place = refl }) k
  take_moving-Next s b batch h (some x) e k f = elim (Bool-cases (s.queue.head == h && not b)) [
    | inl z ↦
        let eh : s.queue.head ≡ h = ground (arith, z) in
        rw z (
          subst
            (λ g.
              Next s (take_moving batch g)
                (move_item batch g x (s.queue.value x) (record s { queue = use_node g s.queue })))
            eh (item-Next s batch x (s.queue.value x) (ap s.queue.next eh ∙ e) refl k))
    | inr z ↦ rw z (
        stay-Next s _ _ _ refl (refl, refl, refl, refl, k.tail_in)
          (record { node = omega (arith, k.tail_in); before = omega arith; place = refl }) k)
  ]

  marking-Next :
      (s : Impl T) (batch : List T) (h : ℕ) (v : T) (marked : List ℕ)
      → Links s.queue s.strand.tasks
      → Next s
          (marking batch h v)
          (record s { queue = collect_garbage marked s.queue }, at (run_taken batch v))
  unfolding collect_garbage
  marking-Next s batch h v marked k = elim (Bool-cases (ltb (length marked) 10)) [
    | inl z ↦ rw z (
        stay-Next s _ _ _ refl (refl, refl, refl, refl, k.tail_in)
          (record { node = omega (arith, k.tail_in); before = omega arith; place = refl }) k)
    | inr z ↦
        let m = length marked - length marked / 2 in
        let (en, eh) = collect-kept m marked s.queue in
        rw z (record {
          follows = inl (refl, refl);
          links = collect-Links m marked s.queue s.strand.tasks k;
          fits = record { node = omega (arith, k.tail_in, en); before = omega arith; place = refl };
          nodes_grow = omega (arith, en);
          head_grows = omega (arith, eh);
        })
  ]

  pub move-Next :
      (c : Call T) (x : Chance) (s : Impl T) (p : At T)
      → Links s.queue s.strand.tasks
      → Fits s.queue p
      → Next s p (move c x s p)
  unfolding move
  move-Next (call_submit v) x s (at outside) k f =
      stay-Next s _ _ _ refl (refl, refl, refl, refl, k.tail_in)
        (record { node = omega (arith, k.tail_in); before = omega arith; place = refl }) k
  move-Next c x s (at (run_take batch)) k f = absurd (ground (arith, f.place))
  move-Next call_run x s (at outside) k f = at-Next call_run s outside refl k
  move-Next c x s (at p) k f = at-Next c s p refl k
  move-Next c x s (putting v) k f =
      stay-Next s _ _ _ refl (refl, refl, refl, refl, k.tail_in)
        (record { node = k.tail_in; before = omega arith; place = refl }) k
  move-Next c x s (put_looking v t) k f = put_looking-Next s v t (s.queue.next t) k f
  move-Next c x s (put_helping v t) k f =
      put_helping-Next s x.spurious v t (s.queue.next t) refl k f
  move-Next c x s (put_linking v t) k f =
      put_linking-Next s x.spurious v t (s.queue.next t) refl k f
  move-Next c x s (swinging a) k f = swinging-Next s x.unassigned a k f
  move-Next c x s (take_loading batch) k f =
      stay-Next s _ _ _ refl (refl, refl, refl, refl, k.tail_in)
        (record { node = omega (arith, k.tail_in); before = omega arith; place = refl }) k
  move-Next c x s (take_looking batch h) k f = take_looking-Next s batch h (s.queue.next h) refl k f
  move-Next c x s (take_moving batch h) k f =
      take_moving-Next s x.spurious batch h (s.queue.next h) refl k f
  move-Next c x s (marking batch h v) k f = marking-Next s batch h v (s.queue.deleted ++ (h ∷ [])) k
