-- ===== src/Locks/QueueSpinLock/Steps.antt =====
-- Each turn of a thread in tasks/mutex/queue/queue_spinlock.hpp keeps the queue as it should be.
use concurrency_course_by_li.Base.{
  ℕ, ◌+◌, ◌<◌, ◌≡◌, inl, inr, true, false, none, some, arith, ◌==◌, Bool-cases, Option-cases,
}
use concurrency_course_by_li.Threads.{update, tally-update, World, commit}
use concurrency_course_by_li.Locks.QueueSpinLock.{
  Lock, Guard, Pc, outside, storing, linking, spinning, clearing, handing, enter, store_owner, act,
  touch,
}
use concurrency_course_by_li.Locks.QueueSpinLock.Invariant.{
  in_line, owns, prev_of, spins, links, waits, loaded, Inv, in_range, unique, last-next,
}

module _ (n : ℕ) (w : World Lock Guard) (inv : Inv n w) (i : ℕ) (lt : i < n) where
  -- The world after the turn, where the thread is at `p`.
  abbrev pub next : Pc → World Lock Guard
  next p = commit i (record w { pc = touch i p w.pc }) (act i w.mem (w.pc i) p)

  pub spinning-Inv : (w.pc i).pc ≡ spinning → Inv n (next spinning)
  unfolding act touch
  spinning-Inv e = record {
    owned = λ t. ground (
      arith,
      e,
      inv.owned t,
      tally-update (waits t) n w.pc i (act i w.mem (w.pc i) spinning).1 lt,
    );
    ordered = inv.ordered;
    free = inv.free;
    last = λ p. ground (arith, e, inv.last p);
    each = λ k lt_k. ground (arith, e, inv.each k, inv.each i);
    pairs = λ k j lt_k. ground (arith, e, inv.each i, inv.pairs k j);
  }

  -- The owner goes on in `Release`, or to it.
  pub own-Inv :
      (p : Pc)
      → in_line (w.pc i).pc ≡ true
      → owns (w.pc i).is_owner (w.pc i).pc ≡ true
      → (owns (w.pc i).is_owner p ≡ true)
        × (prev_of p ≡ none)
        × (in_line p ≡ true)
        × (spins p ≡ false)
        × (links p ≡ false)
        × (loaded p (w.pc i).next ≡ true)
      → Inv n (commit i w (w.mem, record (w.pc i) { pc = p }))
  own-Inv p here own (own', no_prev, here', no_spin, no_link, seen') = record {
    owned = λ t. ground (
      arith,
      here,
      here',
      inv.owned t,
      tally-update (waits t) n w.pc i (record (w.pc i) { pc = p }) lt,
    );
    ordered = inv.ordered;
    free = inv.free;
    last = λ q. ground (arith, here', inv.last q);
    each = λ k lt_k. ground (arith, own, own', seen', no_link, inv.each k, inv.each i);
    pairs = λ k j lt_k. record {
      behind = λ b. ground (arith, b, here', no_prev, (inv.pairs k j lt_k).behind);
      linked = λ x y. ground (arith, x, y, here, own, (inv.pairs k j lt_k).linked);
      follows =
          λ a x y z u. ground (arith, a, x, y, z, u, here, no_spin, (inv.pairs k j lt_k).follows);
    };
  }

  -- The guard is constructed.
  pub enter-Inv : (w.pc i).pc ≡ outside → Inv n (next outside)
  unfolding act touch enter
  enter-Inv e = record {
    owned = λ t. ground (
      arith,
      e,
      inv.owned t,
      inv.ordered,
      tally-update (waits t) n w.pc i (act i w.mem (w.pc i) outside).1 lt,
    );
    ordered = ground (arith, inv.ordered);
    free = λ x. absurd (ground (arith, x));
    last = λ q. ground (arith, lt, e, inv.last q);
    each = λ k lt_k. elim (Option-cases w.mem.tail) [
      | inl z ↦ ground (arith, e, z, inv.free, inv.each k)
      | inr (p, z) ↦ ground (arith, e, z, inv.last p, in_range n w inv p, inv.each k)
    ];
    pairs = λ k j lt_k. record {
      behind = λ b. elim (Bool-cases (i == k)) [
        | inl same ↦
            let z : w.mem.tail ≡ some j = ground (arith, b, same) in
            ground (arith, same, e, z, inv.last j z, last-next n w inv j z)
        | inr other ↦ ground (arith, e, b, other, (inv.pairs k j lt_k).behind)
      ];
      linked = λ x y.
          ground (arith, x, y, e, lt_k, in_range n w inv k lt_k, (inv.pairs k j lt_k).linked);
      follows = λ a x y z u. ground (
        arith,
        a,
        x,
        y,
        z,
        u,
        e,
        in_range n w inv k,
        in_range n w inv j a,
        (inv.pairs k j lt_k).follows,
      );
    };
  }

  -- The guard knows whether it is the first.
  pub store_first-Inv : (w.pc i).pc ≡ storing none → Inv n (next (storing none))
  unfolding act touch store_owner
  store_first-Inv e = record {
    owned = λ t. ground (
      arith,
      e,
      inv.owned t,
      tally-update (waits t) n w.pc i (act i w.mem (w.pc i) (storing none)).1 lt,
    );
    ordered = inv.ordered;
    free = inv.free;
    last = λ q. ground (arith, e, inv.last q);
    each = λ k lt_k. ground (arith, e, inv.each k);
    pairs = λ k j lt_k. record {
      behind = λ b. ground (arith, e, b, (inv.pairs k j lt_k).behind);
      linked = λ x y. ground (arith, e, x, y, (inv.pairs k j lt_k).linked);
      follows = λ a x y z u. ground (arith, e, a, x, y, z, u, (inv.pairs k j lt_k).follows);
    };
  }

  pub store_later-Inv : (p : ℕ) → (w.pc i).pc ≡ storing (some p) → Inv n (next (storing (some p)))
  unfolding act touch store_owner
  store_later-Inv p e = record {
    owned = λ t. ground (
      arith,
      e,
      inv.owned t,
      tally-update (waits t) n w.pc i (act i w.mem (w.pc i) (storing (some p))).1 lt,
    );
    ordered = inv.ordered;
    free = inv.free;
    last = λ q. ground (arith, e, inv.last q);
    each = λ k lt_k. ground (arith, e, inv.each k);
    pairs = λ k j lt_k. record {
      behind = λ b. ground (arith, e, b, (inv.pairs k j lt_k).behind);
      linked = λ x y. ground (arith, e, x, y, (inv.pairs k j lt_k).linked);
      follows = λ a x y z u. ground (arith, e, a, x, y, z, u, (inv.pairs k j lt_k).follows);
    };
  }

  -- The last guard clears `tail_`, where it is the only one.
  module _ (e : (w.pc i).pc ≡ clearing) (z : w.mem.tail ≡ some i) where
    only : (k : ℕ) → k < n → in_line (w.pc k).pc ≡ true → k ≡ i
    only k lt_k here =
        unique n w inv k i lt_k lt here (ground (arith, e))
          (ground (arith, e, inv.last i z, (inv.each i lt).first, in_range n w inv k lt_k here))

    pub clear-Inv : Inv n (
        commit i w (
          record w.mem { tail = none; released = w.mem.released + 1 },
          record (w.pc i) { pc = outside },
        ))
    clear-Inv = record {
      owned = λ t. ground (
        arith,
        e,
        inv.owned t,
        inv.ordered,
        inv.last i z,
        (inv.each i lt).first,
        tally-update (waits t) n w.pc i (record (w.pc i) { pc = outside }) lt,
      );
      ordered = ground (arith, e, inv.ordered, inv.last i z, (inv.each i lt).first);
      free = λ x. ground (arith, e, inv.ordered, inv.last i z, (inv.each i lt).first);
      last = λ q x. absurd (ground (arith, x));
      each = λ k lt_k. ground (arith, only k lt_k, inv.each k);
      pairs = λ k j lt_k. record {
        behind = λ b. ground (arith, b, only k lt_k);
        linked = λ x y. ground (arith, x, only k lt_k);
        follows = λ a x y v u. ground (arith, x, only k lt_k);
      };
    }

  -- The guard is linked to the previous one.
  module _ (p : ℕ) (e : (w.pc i).pc ≡ linking p) where
    prev :
        (p < n)
        × (in_line (w.pc p).pc ≡ true)
        × ((w.pc p).ticket + 1 ≡ (w.pc i).ticket)
        × ((w.pc p).next ≡ none)
    prev = (inv.pairs i p lt).behind (ground (arith, e))

    pub link-Inv : Inv n (next (linking p))
    unfolding act touch
    link-Inv =
        let (lt_p, here_p, tick, no_next) = prev in
        let f = update w.pc p (record (w.pc p) { next = some i }) in
        let here_i : in_line (w.pc i).pc ≡ true = ground (arith, e) in
        record {
          owned = λ t. ground (
            arith,
            e,
            inv.owned t,
            tick,
            tally-update (waits t) n f i (record (w.pc i) { pc = spinning }) lt,
            tally-update (waits t) n w.pc p (record (w.pc p) { next = some i }) lt_p,
          );
          ordered = inv.ordered;
          free = inv.free;
          last = λ q. ground (arith, e, tick, inv.last q);
          each = λ k lt_k. ground (arith, e, tick, no_next, inv.each k);
          pairs = λ k j lt_k. record {
            behind = λ b. ground (
              arith,
              e,
              tick,
              lt,
              here_i,
              b,
              (inv.pairs k j lt_k).behind,
              unique n w inv k i lt_k lt,
            );
            linked = λ x y. ground (
              arith,
              e,
              tick,
              no_next,
              lt,
              x,
              y,
              (inv.pairs k j lt_k).linked,
              (inv.each i lt).not_yet,
            );
            follows = λ a x y v u. ground (
              arith,
              e,
              tick,
              no_next,
              here_p,
              a,
              x,
              y,
              v,
              u,
              (inv.pairs k j lt_k).follows,
              unique n w inv k p lt_k lt_p,
            );
          };
        }

  -- The owner hands the lock over.
  module _ (q : ℕ) (e : (w.pc i).pc ≡ handing q) where
    next_of : (w.pc i).next ≡ some q
    next_of = elim (Option-cases (w.pc i).next) [
      | inl z ↦ absurd (ground (arith, e, z, (inv.each i lt).seen))
      | inr (x, z) ↦ ground (arith, e, z, (inv.each i lt).seen)
    ]

    pub hand-Inv : Inv n (next (handing q))
    unfolding act touch
    hand-Inv =
        let here_i : in_line (w.pc i).pc ≡ true = ground (arith, e) in
        let (lt_q, spin, no_owner, tick) = (inv.pairs i q lt).linked here_i next_of in
        let here_q : in_line (w.pc q).pc ≡ true = ground (arith, spin) in
        let first_i : (w.pc i).ticket ≡ w.mem.released = ground (arith, e, (inv.each i lt).first) in
        let range_q = in_range n w inv q lt_q here_q in
        let f = update w.pc q (record (w.pc q) { is_owner = true }) in
        record {
          owned = λ t. ground (
            arith,
            e,
            inv.owned t,
            tick,
            first_i,
            range_q,
            tally-update (waits t) n f i (record (w.pc i) { pc = outside }) lt,
            tally-update (waits t) n w.pc q (record (w.pc q) { is_owner = true }) lt_q,
          );
          ordered = ground (arith, tick, first_i, range_q);
          free = λ z. ground (arith, z, inv.free, tick, first_i, range_q);
          last = λ p z. ground (arith, e, tick, range_q, inv.last p z);
          each = λ k lt_k. ground (
            arith,
            e,
            tick,
            first_i,
            spin,
            here_i,
            here_q,
            inv.each k lt_k,
            unique n w inv k i lt_k lt,
            unique n w inv k q lt_k lt_q,
          );
          pairs = λ k j lt_k. record {
            behind = λ b. ground (arith, e, tick, b, next_of, (inv.pairs k j lt_k).behind);
            linked = λ x y. ground (
              arith,
              e,
              tick,
              x,
              y,
              here_i,
              (inv.pairs k j lt_k).linked,
              unique n w inv k i lt_k lt,
            );
            follows =
                λ a x y v u. ground (arith, e, tick, a, x, y, v, u, (inv.pairs k j lt_k).follows);
          };
        }
