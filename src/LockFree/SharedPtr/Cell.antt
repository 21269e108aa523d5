-- ===== src/LockFree/SharedPtr/Cell.antt =====
-- What the accesses of the stamped pointer and the construction of a block in
-- tasks/lockfree/shared_ptr/shared_ptr.hpp do to the balance of counters and references.
use concurrency_course_by_li.Base.{ℕ, suc, ◌+◌, ◌≤◌, ◌<◌, ◌≡◌, Option, none, some, arith}
use concurrency_course_by_li.LockFree.SharedPtr.{Heap, make_shared, acquire_ref, set_cell}
use concurrency_course_by_li.LockFree.SharedPtr.Balance.{points, times, Totals, Sane, Balanced}

module _ (k : ℕ) (early : k < 64000) where
  -- A reference goes into the cell, and what was there comes out.
  pub exchange-Balanced :
      (p : Option ℕ) (x : Totals) (h : Heap)
      → Balanced k (record x { strongs = λ o. x.strongs o + points o p }) h
      → Balanced
          (suc k)
          (record x {
            strongs = λ o. x.strongs o + points o h.raw_ptr;
            stamps = λ o. x.stamps o + times h.stamp o h.raw_ptr;
          })
          (set_cell p 0 h)
  unfolding set_cell
  exchange-Balanced p x h b = record {
    each = λ o. ground (arith, early, b.each o);
    no_fault = b.no_fault;
  }

  -- The same where the reference is not counted yet.
  pub exchange_debt-Balanced :
      (p : Option ℕ) (x : Totals) (h : Heap)
      → ((o : ℕ) → points o p ≤ x.strongs o)
      → Balanced k x h
      → Balanced
          (suc k)
          (record x {
            strongs = λ o. x.strongs o + points o h.raw_ptr;
            debts = λ o. x.debts o + points o p;
            stamps = λ o. x.stamps o + times h.stamp o h.raw_ptr;
          })
          (set_cell p 0 h)
  unfolding set_cell
  exchange_debt-Balanced p x h held b = record {
    each = λ o. ground (arith, early, b.each o, held o);
    no_fault = b.no_fault;
  }

  pub acquire-Balanced :
      (p : Option ℕ) (x : Totals) (h : Heap)
      → h.raw_ptr ≡ p
      → Balanced k x h
      → Balanced
          (suc k)
          (record x { transients = λ o. x.transients o + points o p })
          (acquire_ref p h)
  unfolding acquire_ref
  acquire-Balanced none x h e b = record {
    each = λ o. ground (arith, b.each o);
    no_fault = b.no_fault;
  }
  acquire-Balanced (some p) x h e b = record {
    each = λ o. ground (arith, early, e, b.each o);
    no_fault = b.no_fault;
  }

  pub make-Balanced :
      (x : Totals) (h : Heap)
      → Sane x
      → Balanced k x h
      → Balanced
          (suc k)
          (record x { strongs = λ o. x.strongs o + points o (some h.fresh) })
          (make_shared h)
  unfolding make_shared
  make-Balanced x h sane b = record {
    each = λ o. ground (arith, early, b.each o, sane.owing o, sane.pending o);
    no_fault = b.no_fault;
  }
