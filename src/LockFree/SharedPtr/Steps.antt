-- ===== src/LockFree/SharedPtr/Steps.antt =====
-- Each step of a thread in tasks/lockfree/shared_ptr/shared_ptr.hpp keeps the counters in balance with
-- the references of that thread and the rest.
use concurrency_course_by_li.Base.{
  ℕ, suc, ◌+◌, ◌<◌, ◌≡◌, refl, inl, inr, Bool, true, not, ◌&&◌, Option, none, arith, ◌==◌,
  Bool-cases,
}
use concurrency_course_by_li.LockFree.SharedPtr.{
  Heap, Pc, idle, assign_mine, copy_mine, load_acquire, load_share, load_release, load_shrink,
  load_restore, load_assign, store_own, store_exchange, store_share, store_merge, cas_acquire,
  cas_share, cas_swap, cas_own, cas_merge, cas_fail, cas_assign, cas_release, cas_unref, dropping,
  dropping_last, Thread, same_ptr, Call, call_make, call_reset_mine, call_reset_expected, call_copy,
  call_load, call_store, call_cas, start, act,
}
use concurrency_course_by_li.LockFree.SharedPtr.Balance.{
  Totals, Sane, Balanced, shift-Balanced, later-Balanced, add-Balanced, pay-Balanced, drop-Balanced,
  release-Balanced, merge-Balanced, merge_own-Balanced,
}
use concurrency_course_by_li.LockFree.SharedPtr.Cell.{
  exchange-Balanced, exchange_debt-Balanced, acquire-Balanced, make-Balanced,
}
use concurrency_course_by_li.LockFree.SharedPtr.Shares.{
  held, debt, transient_refs, taken, fits, points-same_ptr, stamped-points,
}

-- The references of a thread, and others.
abbrev pub join : Totals → Thread → Totals
join r t = record {
  strongs = λ o. r.strongs o + held o t;
  debts = λ o. r.debts o + debt o t;
  transients = λ o. r.transients o + transient_refs o t;
  stamps = λ o. r.stamps o + taken o t;
}

module _ (k : ℕ) (early : k < 64000) (r : Totals) (h : Heap) where
  -- The thread `t` is to take the step to `(h', t')`.
  abbrev pub Keeps : Thread → Heap × Thread → Type 0
  Keeps t next =
      fits t ≡ true
      → Sane (join r t)
      → Sane (join r next.1)
      → Balanced k (join r t) h
      → Balanced (suc k) (join r next.1) next.0

  start-Keeps :
      (c : Call) (m x : Option ℕ)
      → Keeps
          (record { mine = m; expected = x; pc = idle })
          (start c h (record { mine = m; expected = x; pc = idle }))
  unfolding start
  start-Keeps call_make m x fit old new b =
      shift-Balanced (suc k) _ _ _ (λ o. ground arith)
        (make-Balanced k early (join r (record { mine = m; expected = x; pc = idle })) h old b)
  start-Keeps call_reset_mine m x fit old new b =
      drop-Balanced k early m _ h new (shift-Balanced k _ _ _ (λ o. ground arith) b)
  start-Keeps call_reset_expected m x fit old new b =
      drop-Balanced k early x _ h new (shift-Balanced k _ _ _ (λ o. ground arith) b)
  start-Keeps call_copy m x fit old new b =
      drop-Balanced k early m _ h new (shift-Balanced k _ _ _ (λ o. ground arith) b)
  start-Keeps call_load m x fit old new b =
      later-Balanced k _ h (shift-Balanced k _ _ _ (λ o. ground arith) b)
  start-Keeps call_store m x fit old new b =
      shift-Balanced (suc k) _ _ _ (λ o. ground arith)
        (add-Balanced k early m _ h old (λ o. omega arith) b)
  start-Keeps call_cas m x fit old new b =
      shift-Balanced (suc k) _ _ _ (λ o. ground arith)
        (add-Balanced k early m _ h old (λ o. omega arith) b)

  -- A thread that is in a call.
  pub act-Keeps :
      (c : Call) (sp : Bool) (m x : Option ℕ) (pc : Pc)
      → Keeps
          (record { mine = m; expected = x; pc = pc })
          (act c sp pc h (record { mine = m; expected = x; pc = pc }))
  unfolding act
  act-Keeps c sp m x idle fit old new b = start-Keeps c m x fit old new b
  act-Keeps c sp m x (assign_mine p) fit old new b =
      drop-Balanced k early m _ h new (shift-Balanced k _ _ _ (λ o. ground arith) b)
  act-Keeps c sp m x copy_mine fit old new b =
      shift-Balanced (suc k) _ _ _ (λ o. ground (arith, points-same_ptr o none m))
        (add-Balanced k early x _ h old (λ o. omega arith) b)
  act-Keeps c sp m x (load_acquire p q) fit old new b =
      shift-Balanced (suc k) _ _ _ (λ o. ground arith)
        (acquire-Balanced k early h.raw_ptr _ h refl b)
  act-Keeps c sp m x (load_share q s p p') fit old new b =
      shift-Balanced (suc k) _ _ _ (λ o. ground arith)
        (add-Balanced k early q _ h old (λ o. omega arith) b)
  act-Keeps c sp m x (load_release q s p p') fit old new b =
      release-Balanced k early q _ h new (shift-Balanced k _ _ _ (λ o. ground (arith, fit)) b)
  act-Keeps c sp m x (load_shrink q s p p') fit old new b = absurd (ground arith)
  act-Keeps c sp m x (load_restore q s p p') fit old new b = absurd (ground arith)
  act-Keeps c sp m x (load_assign q p p') fit old new b =
      drop-Balanced k early x _ h new (shift-Balanced k _ _ _ (λ o. ground arith) b)
  act-Keeps c sp m x (store_own p) fit old new b =
      shift-Balanced (suc k) _ _ _ (λ o. ground arith)
        (add-Balanced k early p _ h old (λ o. omega arith) b)
  act-Keeps c sp m x (store_exchange p) fit old new b =
      shift-Balanced (suc k) _ _ _ (λ o. ground arith)
        (exchange-Balanced k early p
          (join r (record { mine = m; expected = x; pc = dropping_last p })) h
          (shift-Balanced k _ _ _ (λ o. ground arith) b))
  act-Keeps c sp m x (store_share p q s) fit old new b =
      shift-Balanced (suc k) _ _ _ (λ o. ground arith)
        (add-Balanced k early q _ h old (λ o. omega arith) b)
  act-Keeps c sp m x (store_merge p q s) fit old new b =
      merge-Balanced k early q s _ h new (shift-Balanced k _ _ _ (λ o. ground arith) b)
  act-Keeps c sp m x (cas_acquire p) fit old new b =
      shift-Balanced (suc k) _ _ _ (λ o. ground (arith, points-same_ptr o h.raw_ptr x))
        (acquire-Balanced k early h.raw_ptr _ h refl b)
  act-Keeps c sp m x (cas_share p q s) fit old new b =
      shift-Balanced (suc k) _ _ _ (λ o. ground arith)
        (add-Balanced k early q _ h old (λ o. omega arith) b)
  act-Keeps c sp m x (cas_assign p q) fit old new b =
      drop-Balanced k early x _ h new (shift-Balanced k _ _ _ (λ o. ground arith) b)
  act-Keeps c sp m x (cas_release p q) fit old new b =
      release-Balanced k early q _ h new (shift-Balanced k _ _ _ (λ o. ground arith) b)
  act-Keeps c sp m x (cas_swap p q s) fit old new b =
      elim (Bool-cases (same_ptr h.raw_ptr q && h.stamp == s && not sp)) [
        | inl e ↦ rw e (
            shift-Balanced (suc k) _ _ _
              (λ o. ground (arith, fit, e, points-same_ptr o h.raw_ptr q))
              (exchange_debt-Balanced k early p _ h (λ o. omega arith) b))
        | inr e ↦ rw e (later-Balanced k _ h (shift-Balanced k _ _ _ (λ o. ground arith) b))
      ]
  act-Keeps c sp m x (cas_own p q s) fit old new b =
      pay-Balanced k early p _ h new (λ o. omega arith)
        (shift-Balanced k _ _ _ (λ o. ground arith) b)
  act-Keeps c sp m x (cas_merge p q s) fit old new b =
      merge_own-Balanced k early q s _ h new (λ o. stamped-points o q s fit)
        (shift-Balanced k _ _ _ (λ o. ground arith) b)
  act-Keeps c sp m x (cas_fail p q s) fit old new b =
      shift-Balanced (suc k) _ _ _ (λ o. ground arith)
        (add-Balanced k early q _ h old (λ o. omega arith) b)
  act-Keeps c sp m x (cas_unref p q) fit old new b =
      release-Balanced k early q _ h new (shift-Balanced k _ _ _ (λ o. ground arith) b)
  act-Keeps c sp m x (dropping p q) fit old new b =
      drop-Balanced k early p _ h new (shift-Balanced k _ _ _ (λ o. ground arith) b)
  act-Keeps c sp m x (dropping_last p) fit old new b =
      drop-Balanced k early p _ h new (shift-Balanced k _ _ _ (λ o. ground arith) b)
