-- ===== src/LockFree/SharedPtr/Shares.antt =====
-- Which references to the control blocks of tasks/lockfree/shared_ptr/shared_ptr.hpp each thread has.
use concurrency_course_by_li.Base.{
  ℕ, zero, suc, ◌+◌, ◌*◌, ◌≤◌, ◌<◌, ◌≡◌, refl, Bool, true, false, ◌&&◌, Option, none, some, arith,
  ltb, leb,
}
use concurrency_course_by_li.Threads.{tally, tally-none}
use concurrency_course_by_li.LockFree.SharedPtr.{
  Pc, idle, assign_mine, copy_mine, load_acquire, load_share, load_release, load_shrink,
  load_restore, load_assign, store_own, store_exchange, store_share, store_merge, cas_acquire,
  cas_share, cas_swap, cas_own, cas_merge, cas_fail, cas_assign, cas_release, cas_unref, dropping,
  dropping_last, Thread, same_ptr, limit,
}
use concurrency_course_by_li.LockFree.SharedPtr.Balance.{points, times, Totals, Sane}

-- Of the block `o`: the strong references of a call under way, including what it took out of the
-- cell, and what it is about to put there.
abbrev pub held_by_call : ℕ → Pc → ℕ
held_by_call o idle = 0
held_by_call o (assign_mine p) = points o p
held_by_call o copy_mine = 0
held_by_call o (load_acquire a b) = points o a + points o b
held_by_call o (load_share q s a b) = points o a + points o b
held_by_call o (load_release q s a b) = points o q + points o a + points o b
held_by_call o (load_shrink q s a b) = points o q + points o a + points o b
held_by_call o (load_restore q s a b) = points o q + points o a + points o b
held_by_call o (load_assign q a b) = points o q + points o a + points o b
held_by_call o (store_own p) = points o p
held_by_call o (store_exchange p) = points o p + points o p
held_by_call o (store_share p q s) = points o p + points o q
held_by_call o (store_merge p q s) = points o p + points o q + points o q
held_by_call o (cas_acquire p) = points o p
held_by_call o (cas_share p q s) = points o p
held_by_call o (cas_swap p q s) = points o p
held_by_call o (cas_own p q s) = points o p + points o q
held_by_call o (cas_merge p q s) = points o p + points o q
held_by_call o (cas_fail p q s) = points o p
held_by_call o (cas_assign p q) = points o p + points o q
held_by_call o (cas_release p q) = points o p
held_by_call o (cas_unref p q) = points o p + points o q
held_by_call o (dropping a b) = points o a + points o b
held_by_call o (dropping_last b) = points o b

abbrev pub held : ℕ → Thread → ℕ
held o t = points o t.mine + points o t.expected + held_by_call o t.pc

-- The reference that `CompareExchangeWeak` put into the cell and did not count yet.
abbrev pub debt_by_call : ℕ → Pc → ℕ
debt_by_call o (cas_own p q s) = points o p
debt_by_call o _ = 0

abbrev pub transient_by_call : ℕ → Pc → ℕ
transient_by_call o (load_share q s a b) = points o q
transient_by_call o (load_release q s a b) = points o q
transient_by_call o (cas_share p q s) = points o q
transient_by_call o (cas_swap p q s) = points o q
transient_by_call o (cas_own p q s) = points o q
transient_by_call o (cas_merge p q s) = points o q
transient_by_call o (cas_fail p q s) = points o q
transient_by_call o (cas_assign p q) = points o q
transient_by_call o (cas_release p q) = points o q
transient_by_call o (cas_unref p q) = points o q
transient_by_call o _ = 0

-- The stamp that was taken out of the cell and not merged yet.
abbrev pub stamp_by_call : ℕ → Pc → ℕ
stamp_by_call o (store_share p q s) = times s o q
stamp_by_call o (store_merge p q s) = times s o q
stamp_by_call o (cas_own p q s) = times s o q
stamp_by_call o (cas_merge p q s) = times s o q
stamp_by_call o _ = 0

abbrev pub debt : ℕ → Thread → ℕ
debt o t = debt_by_call o t.pc

abbrev pub transient_refs : ℕ → Thread → ℕ
transient_refs o t = transient_by_call o t.pc

abbrev pub taken : ℕ → Thread → ℕ
taken o t = stamp_by_call o t.pc

-- A stamp that was read with a pointer counts the reader.
abbrev pub stamped : Option ℕ → ℕ → Bool
stamped none s = true
stamped (some q) s = ltb 0 s

-- What a call knows: `mine` is reset when it is assigned to, the `desired` of `CompareExchangeWeak` is a copy of `mine`, and
-- stamps below the limit are not shrunk.
abbrev pub fits_call : Option ℕ → Pc → Bool
fits_call m copy_mine = same_ptr none m
fits_call m (load_share q s a b) = leb s limit
fits_call m (load_release q s a b) = leb s limit
fits_call m (load_shrink q s a b) = false
fits_call m (load_restore q s a b) = false
fits_call m (cas_acquire p) = same_ptr p m
fits_call m (cas_swap p q s) = same_ptr p m && stamped q s
fits_call m (cas_own p q s) = same_ptr p m && stamped q s
fits_call m (cas_merge p q s) = stamped q s
fits_call m _ = true

abbrev pub fits : Thread → Bool
fits t = fits_call t.mine t.pc

pub same_ptr_refl : (p : Option ℕ) → same_ptr p p ≡ true
unfolding same_ptr
same_ptr_refl none = refl
same_ptr_refl (some p) = ground arith

pub points-same_ptr : (o : ℕ) (p q : Option ℕ) → same_ptr p q ≡ true → points o p ≡ points o q
unfolding same_ptr
points-same_ptr o none none e = refl
points-same_ptr o none (some b) e = absurd (ground arith)
points-same_ptr o (some a) none e = absurd (ground arith)
points-same_ptr o (some a) (some b) e = ground arith

pub stamped-points : (o : ℕ) (q : Option ℕ) (s : ℕ) → stamped q s ≡ true → points o q ≤ s
stamped-points o none s e = omega arith
stamped-points o (some q) s e = ground arith

debt-held_at :
    (o : ℕ) (m x : Option ℕ) (pc : Pc)
    → fits_call m pc ≡ true
    → debt_by_call o pc * 2 ≤ points o m + points o x + held_by_call o pc
debt-held_at o m x (cas_own p q s) e = ground (arith, points-same_ptr o p m)
debt-held_at o m x _ e = omega arith

times-points : (s o : ℕ) (q : Option ℕ) → points o q ≡ 0 → times s o q ≡ 0
times-points s o none e = refl
times-points s o (some q) e = ground arith

taken-held :
    (o : ℕ) (m x : Option ℕ) (pc : Pc)
    → points o m + points o x + held_by_call o pc ≡ 0
    → stamp_by_call o pc ≡ 0
taken-held o m x (store_share p q s) e = times-points s o q (omega arith)
taken-held o m x (store_merge p q s) e = times-points s o q (omega arith)
taken-held o m x (cas_own p q s) e = times-points s o q (omega arith)
taken-held o m x (cas_merge p q s) e = times-points s o q (omega arith)
taken-held o m x _ e = refl

-- A reference that is not counted goes with another one of the same thread.
tally-debt :
    (o n : ℕ) (f : ℕ → Thread)
    → ((i : ℕ) → i < n → fits (f i) ≡ true)
    → tally (debt o) n f * 2 ≤ tally (held o) n f
unfolding tally
tally-debt o zero f fit = omega arith
tally-debt o (suc n) f fit =
    let t = f n in
    omega (
      arith,
      tally-debt o n f (λ i lt. fit i (omega arith)),
      debt-held_at o t.mine t.expected t.pc (fit n (omega arith)),
    )

-- The references of `n` threads.
abbrev pub totals : ℕ → (ℕ → Thread) → Totals
totals n f = record {
  strongs = λ o. tally (held o) n f;
  debts = λ o. tally (debt o) n f;
  transients = λ o. tally (transient_refs o) n f;
  stamps = λ o. tally (taken o) n f;
}

pub totals-Sane :
    (n : ℕ) (f : ℕ → Thread) → ((i : ℕ) → i < n → fits (f i) ≡ true) → Sane (totals n f)
totals-Sane n f fit = record {
  owing = λ o. tally-debt o n f fit;
  pending = λ o. tally-none (held o) (taken o) (λ t. taken-held o t.mine t.expected t.pc) n f;
}
