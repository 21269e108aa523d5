-- ===== src/Exec/Strand/Simulation.antt =====
-- Every schedule of the strand over the queue of tasks/tasks/executors/exe/support/msqueue.hpp is one of
-- the strand whose queue is a list.
use concurrency_course_by_li.Base.{
  ℕ, suc, ◌+◌, ◌≤◌, ◌<◌, ◌≡◌, refl, sym, ap, ◌∙◌, subst, inl, inr, true, List, [], ◌∷◌, ◌++◌, arith,
  ltb, ◌==◌, lt→ltb, ==_iff, Bool-cases, length, length-append,
}
use concurrency_course_by_li.Threads.{run_inv_timed, run-append, World, commit, turn, run}
use concurrency_course_by_li.Exec.Strand.{Call, act, step, init}
use concurrency_course_by_li.Exec.Strand.Queue.{Impl, At, Chance, move, turn_of, start}
use concurrency_course_by_li.Exec.Strand.Links.{Holds, Links, Fits, later-Fits}
use concurrency_course_by_li.Exec.Strand.Refine.{place}
use concurrency_course_by_li.Exec.Strand.Follows.{move-Next}

module _ {T : Type 0} (n : ℕ) where
  pub record Simulates (k : ℕ) (w : World (Impl T) (At T)) : Type 0 where
    pub turns : List (ℕ × Call T)
    pub few_turns : length turns ≤ k
    pub same_strand : (run step n turns init).mem ≡ w.mem.strand
    pub same_places : (i : ℕ) → i < n → (run step n turns init).pc i ≡ place (w.pc i)
    pub links : Links w.mem.queue w.mem.strand.tasks
    pub fits : (i : ℕ) → i < n → Fits w.mem.queue (w.pc i)

  -- The strand takes a step as well.
  follow-Simulates :
      (k i : ℕ) (c : Call T) (w : World (Impl T) (At T)) (r : Impl T × At T)
      → i < n
      → Simulates k w
      → act c w.mem.strand (place (w.pc i)) ≡ (r.0.strand, place r.1)
      → Links r.0.queue r.0.strand.tasks
      → ((j : ℕ) → j < n → Fits r.0.queue ((commit i w r).pc j))
      → Simulates (suc k) (commit i w r)
  unfolding turn step
  follow-Simulates k i c w r lt h e links fits =
      let v = run step n h.turns init in
      let last : run step n (h.turns ++ ((i, c) ∷ [])) init ≡ step i c v =
        run-append step n h.turns (i, c) init
        ∙ (let here : ltb i n ≡ true = lt→ltb _ _ lt in rw here refl) in
      let moved : act c v.mem (v.pc i) ≡ (r.0.strand, place r.1) =
        ap (λ m. act c m (v.pc i)) h.same_strand
        ∙ ap (λ p. act c w.mem.strand p) (h.same_places i lt)
        ∙ e in
      record {
        turns = h.turns ++ ((i, c) ∷ []);
        few_turns = ground (arith, h.few_turns, length-append h.turns ((i, c) ∷ []));
        same_strand = ap (λ x. x.mem) last ∙ ap (λ x. x.0) moved;
        same_places = λ j lt_j. ap (λ x. x.pc j) last ∙ elim (Bool-cases (i == j)) [
          | inl eq ↦ rw eq (ap (λ x. x.1) moved)
          | inr ne ↦ rw ne (h.same_places j lt_j)
        ];
        links = links;
        fits = fits;
      }

  step-Simulates :
      (k i : ℕ) (c : Call T × Chance) (w : World (Impl T) (At T))
      → i < n
      → Simulates k w
      → Simulates (suc k) (turn_of i c w)
  unfolding turn_of
  step-Simulates k i (c, x) w lt h =
      let r = move c x w.mem (w.pc i) in
      let next = move-Next c x w.mem (w.pc i) h.links (h.fits i lt) in
      let fits' : (j : ℕ) → j < n → Fits r.0.queue ((commit i w r).pc j) = λ j lt_j.
        elim (Bool-cases (i == j)) [
          | inl eq ↦ rw eq next.fits
          | inr ne ↦ rw ne (
              later-Fits w.mem.queue r.0.queue (w.pc j) next.nodes_grow next.head_grows
                (h.fits j lt_j))
        ] in
      elim next.follows [
        | inl (e, ep) ↦ record {
          turns = h.turns;
          few_turns = omega (arith, h.few_turns);
          same_strand = h.same_strand ∙ sym e;
          same_places = λ j lt_j. elim (Bool-cases (i == j)) [
            | inl eq ↦ rw eq (
                subst (λ y. (run step n h.turns init).pc y ≡ place r.1) ((==_iff i j).0 eq)
                  (h.same_places i lt ∙ sym ep))
            | inr ne ↦ rw ne (h.same_places j lt_j)
          ];
          links = next.links;
          fits = fits';
        }
        | inr (c', e) ↦ follow-Simulates k i c' w r lt h e next.links fits'
      ]

  start-Simulates : Simulates 0 start
  unfolding run Holds
  start-Simulates = record {
    turns = [];
    few_turns = omega arith;
    same_strand = refl;
    same_places = λ i lt. refl;
    links = record {
      inner = λ x lt. absurd (omega (arith, lt));
      last = λ x e. refl;
      tail_in = omega arith;
      holds = refl;
      count = omega arith;
    };
    fits = λ i lt. record { node = omega arith; before = omega arith; place = refl };
  }

  pub run-Simulates :
      (ts : List (ℕ × (Call T × Chance))) → Simulates (0 + length ts) (run turn_of n ts start)
  run-Simulates ts =
      run_inv_timed turn_of n Simulates (length ts)
        (λ k i c w early lt h. step-Simulates k i c w lt h)
        (λ k w h. record {
          turns = h.turns;
          few_turns = omega (arith, h.few_turns);
          same_strand = h.same_strand;
          same_places = h.same_places;
          links = h.links;
          fits = h.fits;
        })
        ts 0 start (omega arith) start-Simulates
