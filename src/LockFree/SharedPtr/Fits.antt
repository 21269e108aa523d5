-- ===== src/LockFree/SharedPtr/Fits.antt =====
-- What the calls of tasks/lockfree/shared_ptr/shared_ptr.hpp know of their arguments and of the stamps
-- they read.
use concurrency_course_by_li.Base.{
  ℕ, suc, ◌≤◌, ◌<◌, ◌≡◌, refl, inl, inr, Bool, true, Option, none, some, arith, ◌==◌, Bool-cases,
}
use concurrency_course_by_li.Threads.{update}
use concurrency_course_by_li.LockFree.SharedPtr.{
  Heap, Pc, idle, assign_mine, copy_mine, load_acquire, load_share, load_release, load_shrink,
  load_restore, load_assign, store_own, store_exchange, store_share, store_merge, cas_acquire,
  cas_share, cas_swap, cas_own, cas_merge, cas_fail, cas_assign, cas_release, cas_unref, dropping,
  dropping_last, Thread, same_ptr, Call, call_make, call_reset_mine, call_reset_expected, call_copy,
  call_load, call_store, call_cas, start, act, acquire_ref, make_shared, increment_strong,
  decrement_strong, increment_counter, set_cell, decrement_transient, increment_transient,
}
use concurrency_course_by_li.LockFree.SharedPtr.Shares.{stamped, fits_call, fits, same_ptr_refl}

stamp-increment_counter :
    (p : Option ℕ) (a b : ℕ) (h : Heap) → (increment_counter p a b h).stamp ≡ h.stamp
unfolding increment_counter
stamp-increment_counter none a b h = refl
stamp-increment_counter (some p) a b h = refl

stamp-acquire_ref : (p : Option ℕ) (h : Heap) → (acquire_ref p h).stamp ≤ suc h.stamp
unfolding acquire_ref
stamp-acquire_ref none h = omega arith
stamp-acquire_ref (some p) h = omega arith

-- Who acquires a reference reads a stamp that counts it.
stamped-acquire_ref : (p : Option ℕ) (h : Heap) → stamped p (acquire_ref p h).stamp ≡ true
unfolding acquire_ref
stamped-acquire_ref none h = refl
stamped-acquire_ref (some p) h = ground arith

-- What a step leaves of the call, and of the stamp.
abbrev pub Fits : ℕ → Heap × Thread → Type 0
Fits k r = (fits r.1 ≡ true) × (r.0.stamp ≤ suc k)

pub act-Fits :
    (k : ℕ) (c : Call) (sp : Bool) (h : Heap) (m x : Option ℕ) (pc : Pc)
    → k < 64000
    → fits_call m pc ≡ true
    → h.stamp ≤ k
    → Fits k (act c sp pc h (record { mine = m; expected = x; pc = pc }))
unfolding act start increment_strong decrement_strong decrement_transient increment_transient
    make_shared set_cell same_ptr
act-Fits k call_make sp h m x idle early e small = (refl, omega arith)
act-Fits k call_reset_mine sp h m x idle early e small =
    (refl, ground (arith, stamp-increment_counter m))
act-Fits k call_reset_expected sp h m x idle early e small =
    (refl, ground (arith, stamp-increment_counter x))
act-Fits k call_copy sp h m x idle early e small = (refl, ground (arith, stamp-increment_counter m))
act-Fits k call_load sp h m x idle early e small = (refl, omega arith)
act-Fits k call_store sp h m x idle early e small =
    (refl, ground (arith, stamp-increment_counter m))
act-Fits k call_cas sp h m x idle early e small =
    (same_ptr_refl m, ground (arith, stamp-increment_counter m))
act-Fits k c sp h m x (assign_mine p) early e small =
    (refl, ground (arith, stamp-increment_counter m))
act-Fits k c sp h m x copy_mine early e small = (refl, ground (arith, stamp-increment_counter x))
act-Fits k c sp h m x (load_acquire a b) early e small =
    ground (arith, stamp-acquire_ref h.raw_ptr h)
act-Fits k c sp h m x (load_share q s a b) early e small =
    (ground arith, ground (arith, stamp-increment_counter q))
act-Fits k c sp h m x (load_release q s a b) early e small =
    (ground arith, ground (arith, stamp-increment_counter q))
act-Fits k c sp h m x (load_shrink q s a b) early e small = absurd (ground arith)
act-Fits k c sp h m x (load_restore q s a b) early e small = absurd (ground arith)
act-Fits k c sp h m x (load_assign q a b) early e small =
    (refl, ground (arith, stamp-increment_counter x))
act-Fits k c sp h m x (store_own p) early e small =
    (refl, ground (arith, stamp-increment_counter p))
act-Fits k c sp h m x (store_exchange p) early e small = (refl, omega arith)
act-Fits k c sp h m x (store_share p q s) early e small =
    (refl, ground (arith, stamp-increment_counter q))
act-Fits k c sp h m x (store_merge p q s) early e small =
    (refl, ground (arith, stamp-increment_counter q))
act-Fits k c sp h m x (cas_acquire p) early e small =
    ground (arith, stamp-acquire_ref h.raw_ptr h, stamped-acquire_ref h.raw_ptr h)
act-Fits k c sp h m x (cas_share p q s) early e small =
    (refl, ground (arith, stamp-increment_counter q))
act-Fits k c sp h m x (cas_assign p q) early e small =
    (refl, ground (arith, stamp-increment_counter x))
act-Fits k c sp h m x (cas_release p q) early e small =
    (refl, ground (arith, stamp-increment_counter q))
act-Fits k c sp h m x (cas_swap p q s) early e small = ground arith
act-Fits k c sp h m x (cas_own p q s) early e small =
    (ground arith, ground (arith, stamp-increment_counter p))
act-Fits k c sp h m x (cas_merge p q s) early e small =
    (refl, ground (arith, stamp-increment_counter q))
act-Fits k c sp h m x (cas_fail p q s) early e small =
    (refl, ground (arith, stamp-increment_counter q))
act-Fits k c sp h m x (cas_unref p q) early e small =
    (refl, ground (arith, stamp-increment_counter q))
act-Fits k c sp h m x (dropping a b) early e small =
    (refl, ground (arith, stamp-increment_counter a))
act-Fits k c sp h m x (dropping_last b) early e small =
    (refl, ground (arith, stamp-increment_counter b))

pub update-fits :
    (n : ℕ) (f : ℕ → Thread) (i : ℕ) (t : Thread)
    → ((j : ℕ) → j < n → fits (f j) ≡ true)
    → fits t ≡ true
    → (j : ℕ) → j < n
    → fits (update f i t j) ≡ true
update-fits n f i t fit e j lt = elim (Bool-cases (i == j)) [
  | inl eq ↦ rw eq e
  | inr ne ↦ rw ne (fit j lt)
]
