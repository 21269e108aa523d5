-- ===== src/Exec/Strand/Refine.antt =====
-- The strand over the queue of tasks/tasks/executors/exe/support/msqueue.hpp takes the steps of a
-- strand whose queue is a list.
use concurrency_course_by_li.Base.{
  ◌≤◌, ◌<◌, ◌≡◌, refl, sym, ap, subst, ◌⊎◌, inl, inr, Bool, true, false, [], ◌∷◌, arith,
}
use concurrency_course_by_li.Exec.Strand.{
  Strand, Pc, outside, linked, run_take, run_taken, run_tasks, Call, call_submit, call_run, act,
  schedule, run_task, finish, start_run, add_ref, submit_self,
}
use concurrency_course_by_li.Exec.Strand.Queue.{
  MsQueue, Impl, At, at, putting, put_looking, put_helping, put_linking, swinging, take_loading,
  take_looking, take_moving, marking, enter,
}
use concurrency_course_by_li.Exec.Strand.Links.{Links, Fits, later-Fits, same-Links}

module _ {T : Type 0} where
  -- Where a thread stands for the strand.
  abbrev pub place : At T → Pc T
  place (at p) = p
  place (putting v) = outside
  place (put_looking v t) = outside
  place (put_helping v t) = outside
  place (put_linking v t) = outside
  place (swinging a) = linked
  place (take_loading batch) = run_take batch
  place (take_looking batch h) = run_take batch
  place (take_moving batch h) = run_take batch
  place (marking batch h v) = run_taken batch v

  place-enter : (p : Pc T) → place (enter p) ≡ p
  place-enter p = ground arith

  -- A step of the strand, or none.
  abbrev pub Follows : Strand T → Pc T → Strand T → Pc T → Type 0
  Follows s p s' p' = ((s' ≡ s) × (p' ≡ p)) ⊎ ((c : Call T) × (act c s p ≡ (s', p')))

  pub record Next (s : Impl T) (p : At T) (r : Impl T × At T) : Type 0 where
    pub follows : Follows s.strand (place p) r.0.strand (place r.1)
    pub links : Links r.0.queue r.0.strand.tasks
    pub fits : Fits r.0.queue r.1
    pub nodes_grow : s.queue.nodes ≤ r.0.queue.nodes
    pub head_grows : s.queue.head ≤ r.0.queue.head

  -- A step that leaves the strand and the links as they are.
  pub stay-Next :
      (s : Impl T) (p : At T) (q' : MsQueue T) (p' : At T)
      → place p' ≡ place p
      → (q'.next ≡ s.queue.next)
        × (q'.value ≡ s.queue.value)
        × (q'.nodes ≡ s.queue.nodes)
        × (q'.head ≡ s.queue.head)
        × (q'.tail < s.queue.nodes)
      → Fits s.queue p'
      → Links s.queue s.strand.tasks
      → Next s p (record s { queue = q' }, p')
  stay-Next s p q' p' e same f k = record {
    follows = inl (refl, e);
    links = same-Links s.queue q' s.strand.tasks same k;
    fits = later-Fits s.queue q' p' (omega (arith, same.2)) (omega (arith, same.3)) f;
    nodes_grow = omega (arith, same.2);
    head_grows = omega (arith, same.3);
  }

  -- The strand itself moves, and not the queue.
  abbrev pub apart : Call T → Pc T → Bool
  apart (call_submit v) outside = false
  apart c (run_take batch) = false
  apart c p = true

  act-tasks :
      (c : Call T) (s : Strand T) (p : Pc T) → apart c p ≡ true → (act c s p).0.tasks ≡ s.tasks
  unfolding act schedule run_task finish start_run add_ref submit_self
  act-tasks (call_submit v) s outside e = absurd (ground (arith, e))
  act-tasks c s (run_take batch) e = absurd (ground (arith, e))
  act-tasks call_run s outside e = ground arith
  act-tasks c s (run_tasks [] count) e = refl
  act-tasks c s (run_tasks (v ∷ batch) count) e = refl
  act-tasks c s p e = refl

  pub at-Next :
      (c : Call T) (s : Impl T) (p : Pc T)
      → apart c p ≡ true
      → Links s.queue s.strand.tasks
      → let r = act c s.strand p in Next s (at p) (record s { strand = r.0 }, enter r.1)
  at-Next c s p e k =
      let r = act c s.strand p in
      record {
        follows = inr (c, ap (λ p'. (r.0, p')) (sym (place-enter r.1)));
        links = subst (λ l. Links s.queue l) (sym (act-tasks c s.strand p e)) k;
        fits = record {
          node = ground (arith, k.tail_in);
          before = ground arith;
          place = ground arith;
        };
        nodes_grow = omega arith;
        head_grows = omega arith;
      }
