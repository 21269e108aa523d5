-- ===== src/Locks/TicketLock/Order.antt =====
-- Each ticket of tasks/mutex/try-lock/ticket_lock.hpp from the owner's to the next free one belongs
-- to one thread, so that the threads enter one by one, in the order of their tickets.
use concurrency_course_by_li.Base.{
  ℕ, suc, ◌+◌, ◌^◌, ◌≤◌, ◌<◌, ◌≡◌, refl, subst, inl, inr, ◌&&◌, List, arith, ltb, leb, ◌==◌,
  if◌then◌else◌, ==_iff, Bool-cases, length,
}
use concurrency_course_by_li.Threads.{
  update, tally, tally-update, le-tally, add-le-tally, tally-eq-zero, member_of_tally,
  run_inv_timed, World, run,
}
use concurrency_course_by_li.Locks.TicketLock.{
  TicketLock, Pc, Call, outside, spinning, trying, inside, act, step, init,
}

abbrev waits : ℕ → Pc → ℕ
waits t (spinning t') = if t' == t then 1 else 0
waits t _ = 0

abbrev holds : Pc → ℕ
holds inside = 1
holds _ = 0

-- What a thread in `TryLock` has loaded.
abbrev loaded : Pc → ℕ
loaded (trying o) = o
loaded _ = 0

-- Threads with the ticket `t`, and how many there are to be.
abbrev owners : ℕ → ℕ → World TicketLock Pc → ℕ
owners n t w = tally (waits t) n w.pc + (if t == w.mem.owner_ticket then tally holds n w.pc else 0)

abbrev issued : ℕ → TicketLock → ℕ
issued t l = if leb l.owner_ticket t && ltb t l.next_free_ticket then 1 else 0

record Inv (n k : ℕ) (w : World TicketLock Pc) : Type 0 where
  owned : (t : ℕ) → owners n t w ≡ issued t w.mem
  ordered : w.mem.owner_ticket ≤ w.mem.next_free_ticket
  early : w.mem.next_free_ticket ≤ k
  seen : (i : ℕ) → i < n → loaded (w.pc i) ≤ w.mem.owner_ticket

module _ (n k i : ℕ) (c : Call) (w : World TicketLock Pc) where
  abbrev moved : TicketLock × Pc
  moved = act c w.mem (w.pc i)

  -- How a step changes the three counts, and that a thread is counted where it stands.
  waits_moved :
      (t : ℕ)
      → i < n
      → tally (waits t) n (update w.pc i moved.1) + waits t (w.pc i)
        ≡ tally (waits t) n w.pc + waits t moved.1
  waits_moved t lt = tally-update (waits t) n w.pc i moved.1 lt

  step-Inv : k < 2 ^ 62 → i < n → Inv n k w → Inv n (suc k) (step i c w)
  unfolding step act
  step-Inv small lt h = record {
    owned = λ t. ground (
      arith,
      h.owned t,
      h.owned w.mem.owner_ticket,
      h.ordered,
      h.early,
      waits_moved t lt,
      tally-update holds n w.pc i moved.1 lt,
      le-tally holds n w.pc i lt,
      h.seen i lt,
    );
    ordered =
        ground (arith, h.owned w.mem.owner_ticket, h.ordered, h.early, le-tally holds n w.pc i lt);
    early = ground (arith, h.ordered, h.early);
    seen = λ j lt_j. ground (arith, h.seen j lt_j, h.ordered, h.early);
  }

-- What holds after every schedule of at most 2^62 turns.
abbrev reached : ℕ → List (ℕ × Call) → World TicketLock Pc
reached n ts = run step n ts init

run-Inv : (n : ℕ) (ts : List (ℕ × Call)) → length ts ≤ 2 ^ 62 → Inv n (length ts) (reached n ts)
run-Inv n ts short =
    subst (λ k. Inv n k (reached n ts)) (omega arith)
      (run_inv_timed step n (Inv n) (2 ^ 62) (λ k i c w small lt h. step-Inv n k i c w small lt h)
        (λ k w h. record {
          owned = h.owned;
          ordered = h.ordered;
          early = omega (arith, h.early);
          seen = h.seen;
        })
        ts 0 init (omega arith)
        (record {
          owned = λ t. ground (
            arith,
            tally-eq-zero (waits t) n (λ _. outside) (λ j lt. refl),
            tally-eq-zero holds n (λ _. outside) (λ j lt. refl),
          );
          ordered = omega arith;
          early = omega arith;
          seen = λ j lt. omega arith;
        }))

module _ (n : ℕ) (ts : List (ℕ × Call)) (short : length ts ≤ 2 ^ 62) where
  abbrev owned : (t : ℕ) → owners n t (reached n ts) ≡ issued t (reached n ts).mem
  owned = (run-Inv n ts short).owned

  -- After every schedule of at most 2^62 turns of `Lock`, `TryLock` and `Unlock` by `n` threads,
  -- two threads that are inside are the same.
  pub ticket_mutual_exclusion :
      (i j : ℕ)
      → i < n
      → j < n
      → (reached n ts).pc i ≡ inside
      → (reached n ts).pc j ≡ inside
      → i ≡ j
  ticket_mutual_exclusion i j hi hj pi pj = elim (Bool-cases (i == j)) [
    | inl same ↦ (==_iff i j).0 same
    | inr other ↦
        let w = reached n ts in
        ground (arith, owned w.mem.owner_ticket, add-le-tally holds n w.pc i j)
  ]

  -- After every schedule of at most 2^62 turns, of two threads in the loop of `Lock`, the one with
  -- the later ticket stays in the loop at its next turn.
  pub ticket_order :
      (i j t u : ℕ) (c : Call)
      → i < n
      → t < u
      → (reached n ts).pc i ≡ spinning t
      → (reached n ts).pc j ≡ spinning u
      → (step j c (reached n ts)).pc j ≡ spinning u
  unfolding step act
  ticket_order i j t u c hi lt pi pj =
      ground (arith, owned t, owned u, le-tally (waits t) n (reached n ts).pc i hi)

  -- After every schedule of at most 2^62 turns, if a thread is in the loop of `Lock` and no thread is
  -- inside, then there is a thread in the loop whose next turn takes it inside.
  pub ticket_progress :
      (i t : ℕ) (c : Call)
      → i < n
      → (reached n ts).pc i ≡ spinning t
      → tally holds n (reached n ts).pc ≡ 0
      → (j : ℕ) × (j < n) × ((step j c (reached n ts)).pc j ≡ inside)
  unfolding step act
  ticket_progress i t c hi pi none_in =
      let w = reached n ts in
      let (j, lt, pos) =
        member_of_tally (waits w.mem.owner_ticket) n w.pc
          (ground (arith, owned t, owned w.mem.owner_ticket, le-tally (waits t) n w.pc i hi)) in
      (j, lt, ground arith)
