-- ===== src/Exec/Strand/Links.antt =====
-- The links of the queue of tasks/tasks/executors/exe/support/msqueue.hpp: the nodes are linked in the
-- order of their numbers, and those behind the sentinel hold the tasks.
use concurrency_course_by_li.Base.{
  ℕ, zero, suc, ◌+◌, ◌≤◌, ◌<◌, ◌≡◌, refl, sym, ap, ◌∙◌, subst, inl, inr, Bool, true, false, Option,
  none, some, List, [], ◌∷◌, ◌++◌, arith, ltb, ◌==◌, Bool-cases, length, length-append,
}
use concurrency_course_by_li.Threads.{update}
use concurrency_course_by_li.Exec.Strand.{run_take}
use concurrency_course_by_li.Exec.Strand.Queue.{
  MsQueue, At, at, put_looking, put_helping, put_linking, swinging, take_looking, take_moving,
  use_node, collect,
}

module _ {T : Type 0} where
  -- The values from a node on.
  unfoldable pub Holds : (ℕ → Option T) → ℕ → List T → Type 0
  Holds value x [] = x ≡ x
  Holds value x (v ∷ rest) = (value x ≡ some v) × Holds value (x + 1) rest

  pub record Links (q : MsQueue T) (tasks : List T) : Type 0 where
    pub inner : (x : ℕ) → x + 1 < q.nodes → q.next x ≡ some (x + 1)
    pub last : (x : ℕ) → x + 1 ≡ q.nodes → q.next x ≡ none
    pub tail_in : q.tail < q.nodes
    pub holds : Holds q.value (q.head + 1) tasks
    pub count : q.head + 1 + length tasks ≡ q.nodes

  -- The node that a thread has a pointer to, the head that it has loaded, and whether its place is one
  -- that the code has.
  abbrev pub local_node : At T → ℕ
  local_node (put_looking v t) = t
  local_node (put_helping v t) = t
  local_node (put_linking v t) = t
  local_node (swinging a) = a
  local_node _ = 0

  abbrev pub local_head : At T → ℕ
  local_head (take_looking batch h) = h
  local_head (take_moving batch h) = h
  local_head _ = 0

  abbrev pub is_place : At T → Bool
  is_place (at (run_take _)) = false
  is_place _ = true

  pub record Fits (q : MsQueue T) (p : At T) : Type 0 where
    pub node : local_node p < q.nodes
    pub before : local_head p ≤ q.head
    pub place : is_place p ≡ true

  pub later-Fits :
      (q q' : MsQueue T) (p : At T) → q.nodes ≤ q'.nodes → q.head ≤ q'.head → Fits q p → Fits q' p
  later-Fits q q' p a b f = record {
    node = omega (arith, f.node, a);
    before = omega (arith, f.before, b);
    place = f.place;
  }

  Holds-update :
      (value : ℕ → Option T) (a : ℕ) (u : Option T) (x : ℕ) (l : List T)
      → x + length l ≤ a
      → Holds value x l
      → Holds (update value a u) x l
  unfolding Holds
  Holds-update value a u x [] le h = refl
  Holds-update value a u x (v ∷ l) le (e, h) =
      let ne : (a == x) ≡ false = ground (arith, le) in
      (rw ne e, Holds-update value a u (x + 1) l (omega (arith, le)) h)

  Holds-append :
      (value : ℕ → Option T) (a : ℕ) (u : T) (x : ℕ) (l : List T)
      → x + length l ≡ a
      → Holds value x l
      → Holds (update value a (some u)) x (l ++ (u ∷ []))
  unfolding Holds
  Holds-append value a u x [] e h =
      let same : (a == x) ≡ true = ground (arith, e) in (rw same refl, refl)
  Holds-append value a u x (v ∷ l) e (ev, h) =
      let ne : (a == x) ≡ false = ground (arith, e) in
      (rw ne ev, Holds-append value a u (x + 1) l (omega (arith, e)) h)

  -- Parts of the queue that have nothing to do with its links.
  pub same-Links :
      (q q' : MsQueue T) (l : List T)
      → (q'.next ≡ q.next)
        × (q'.value ≡ q.value)
        × (q'.nodes ≡ q.nodes)
        × (q'.head ≡ q.head)
        × (q'.tail < q.nodes)
      → Links q l
      → Links q' l
  same-Links q q' l (en, ev, es, eh, et) k = record {
    inner = λ x lt. ap (λ f. f x) en ∙ k.inner x (subst (λ m. x + 1 < m) es lt);
    last = λ x e. ap (λ f. f x) en ∙ k.last x (e ∙ es);
    tail_in = subst (λ m. q'.tail < m) (sym es) et;
    holds =
        subst (λ f. Holds f (q'.head + 1) l) (sym ev)
          (subst (λ y. Holds q.value (y + 1) l) (sym eh) k.holds);
    count = ap (λ y. y + 1 + length l) eh ∙ k.count ∙ sym es;
  }

  -- A node with a next one is linked to the one that follows.
  pub next_is :
      (q : MsQueue T) (l : List T) (t x : ℕ)
      → Links q l
      → t < q.nodes
      → q.next t ≡ some x
      → (x ≡ t + 1) × (t + 1 < q.nodes)
  next_is q l t x k lt e = elim (Bool-cases (ltb (t + 1) q.nodes)) [
    | inl more ↦ ground (arith, more, e, k.inner t)
    | inr end ↦ absurd (ground (arith, end, e, lt, k.last t))
  ]

  pub no_next :
      (q : MsQueue T) (l : List T) (t : ℕ)
      → Links q l
      → t < q.nodes
      → q.next t ≡ none
      → t + 1 ≡ q.nodes
  no_next q l t k lt e = elim (Bool-cases (ltb (t + 1) q.nodes)) [
    | inl more ↦ absurd (ground (arith, more, e, k.inner t))
    | inr end ↦ ground (arith, end, lt)
  ]

  pub link-Links :
      (q : MsQueue T) (l : List T) (t : ℕ) (v : T)
      → t + 1 ≡ q.nodes
      → Links q l
      → Links
          (record q {
            next = update (update q.next q.nodes none) t (some q.nodes);
            value = update q.value q.nodes (some v);
            nodes = q.nodes + 1;
          })
          (l ++ (v ∷ []))
  link-Links q l t v e k = record {
    inner = λ x lt. ground (arith, e, lt, k.inner x);
    last = λ x z. ground (arith, e, z);
    tail_in = ground (arith, k.tail_in);
    holds = Holds-append q.value q.nodes v (q.head + 1) l k.count k.holds;
    count = ground (arith, k.count, length-append l (v ∷ []));
  }

  -- The list behind a head that moves on.
  pub take-Links :
      (q : MsQueue T) (l : List T) (x : ℕ) (v : T)
      → q.next q.head ≡ some x
      → q.value x ≡ some v
      → Links q l
      → (rest : List T) × (l ≡ v ∷ rest) × Links (record (use_node x q) { head = x }) rest
  unfolding Holds use_node
  take-Links q [] x v e ev k = absurd (ground (arith, e, k.count, k.last q.head))
  take-Links q (u ∷ rest) x v e ev k =
      let (ex, more) = next_is q (u ∷ rest) q.head x k (omega (arith, k.count)) e in
      let same : some u ≡ some v = sym k.holds.0 ∙ ap q.value (sym ex) ∙ ev in
      let same_value : u ≡ v = ground (arith, same) in
      (
        rest,
        ap (λ y. y ∷ rest) same_value,
        record {
          inner = k.inner;
          last = k.last;
          tail_in = k.tail_in;
          holds = subst (λ y. Holds q.value (y + 1) rest) (sym ex) k.holds.1;
          count = ground (arith, ex, k.count);
        },
      )

  -- A head that moves on finds a value.
  pub no_value :
      (q : MsQueue T) (l : List T) (x : ℕ)
      → q.next q.head ≡ some x
      → q.value x ≡ none
      → Links q l
      → ⊥
  unfolding Holds
  no_value q [] x e ev k = ground (arith, e, k.count, k.last q.head)
  no_value q (u ∷ rest) x e ev k =
      let (ex, more) = next_is q (u ∷ rest) q.head x k (omega (arith, k.count)) e in
      let same : some u ≡ none = sym k.holds.0 ∙ ap q.value (sym ex) ∙ ev in ground (arith, same)

  pub collect-Links :
      (n : ℕ) (marked : List ℕ) (q : MsQueue T) (l : List T)
      → Links q l
      → Links (collect n marked q) l
  unfolding collect
  collect-Links zero marked q l k = same-Links q _ l (refl, refl, refl, refl, k.tail_in) k
  collect-Links (suc n) [] q l k = same-Links q _ l (refl, refl, refl, refl, k.tail_in) k
  collect-Links (suc n) (a ∷ marked) q l k =
      collect-Links n marked _ l (same-Links q _ l (refl, refl, refl, refl, k.tail_in) k)

  pub collect-kept :
      (n : ℕ) (marked : List ℕ) (q : MsQueue T)
      → ((collect n marked q).nodes ≡ q.nodes) × ((collect n marked q).head ≡ q.head)
  unfolding collect
  collect-kept zero marked q = (refl, refl)
  collect-kept (suc n) [] q = (refl, refl)
  collect-kept (suc n) (a ∷ marked) q =
      collect-kept n marked (record q { freed = update q.freed a true })
