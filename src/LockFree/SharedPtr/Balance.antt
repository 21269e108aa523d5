-- ===== src/LockFree/SharedPtr/Balance.antt =====
-- The counters of the control blocks in tasks/lockfree/shared_ptr/shared_ptr.hpp against the
-- references there are, and what each change of a counter does to this balance.
use concurrency_course_by_li.Base.{
  ℕ, suc, ◌+◌, ◌*◌, ◌≤◌, ◌<◌, ◌≡◌, false, Option, none, some, arith, ltb, ◌==◌, if◌then◌else◌,
}
use concurrency_course_by_li.LockFree.SharedPtr.{
  word_mod, add32, minus_one, Heap, increment_counter, increment_strong, decrement_strong,
  decrement_transient,
}

abbrev pub points : ℕ → Option ℕ → ℕ
points o none = 0
points o (some p) = if p == o then 1 else 0

-- `s` for each object that is pointed to.
abbrev pub times : ℕ → ℕ → Option ℕ → ℕ
times s o none = 0
times s o (some p) = if p == o then s else 0

-- What the threads have of each block: strong references, those of them that are not counted yet,
-- transient references, and stamps that were taken out of the cell and not merged yet.
pub record Totals : Type 0 where
  pub strongs : ℕ → ℕ
  pub debts : ℕ → ℕ
  pub transients : ℕ → ℕ
  pub stamps : ℕ → ℕ

-- The block `o`, within the first `k` steps.
pub record Balance (k : ℕ) (x : Totals) (h : Heap) (o : ℕ) : Type 0 where
  pub strong : h.strong o + x.debts o ≡ x.strongs o + points o h.raw_ptr
  pub strong_small : h.strong o ≤ k
  pub transient : add32 (h.transient o) (x.stamps o + times h.stamp o h.raw_ptr) ≡ x.transients o
  pub transient_small : h.transient o < word_mod
  pub stamps_small : x.stamps o + times h.stamp o h.raw_ptr ≤ k
  pub transients_small : x.transients o ≤ k
  pub life : h.alive o ≡ ltb 0 (x.strongs o + points o h.raw_ptr + x.transients o)
  pub unborn : h.fresh ≤ o → x.strongs o + points o h.raw_ptr + x.transients o ≡ 0

pub record Balanced (k : ℕ) (x : Totals) (h : Heap) : Type 0 where
  pub each : (o : ℕ) → Balance k x h o
  pub no_fault : h.fault ≡ false

-- A reference that is not counted goes with one that is, and stamps to merge with a reference.
pub record Sane (x : Totals) : Type 0 where
  pub owing : (o : ℕ) → x.debts o * 2 ≤ x.strongs o
  pub pending : (o : ℕ) → x.strongs o ≡ 0 → x.stamps o ≡ 0

-- The same totals in other words.
pub shift-Balanced :
    (k : ℕ) (x y : Totals) (h : Heap)
    → ((o : ℕ)
        → (x.strongs o ≡ y.strongs o)
          × (x.debts o ≡ y.debts o)
          × (x.transients o ≡ y.transients o)
          × (x.stamps o ≡ y.stamps o))
    → Balanced k x h
    → Balanced k y h
shift-Balanced k x y h same b = record {
  each = λ o. ground (arith, same o, b.each o);
  no_fault = b.no_fault;
}

pub later-Balanced : (k : ℕ) (x : Totals) (h : Heap) → Balanced k x h → Balanced (suc k) x h
later-Balanced k x h b = record { each = λ o. ground (arith, b.each o); no_fault = b.no_fault }

module _ (k : ℕ) (early : k < 64000) where
  pub add-Balanced :
      (p : Option ℕ) (x : Totals) (h : Heap)
      → Sane x
      → ((o : ℕ) → points o p ≤ x.strongs o + points o h.raw_ptr + x.transients o)
      → Balanced k x h
      → Balanced
          (suc k)
          (record x { strongs = λ o. x.strongs o + points o p })
          (increment_strong p h)
  unfolding increment_strong increment_counter
  add-Balanced none x h sane held b = record {
    each = λ o. ground (arith, b.each o);
    no_fault = b.no_fault;
  }
  add-Balanced (some p) x h sane held b = record {
    each = λ o. ground (arith, early, b.each o, sane.owing o, sane.pending o, held o);
    no_fault = ground (arith, b.no_fault, b.each p, held p);
  }

  -- A reference that was not counted is.
  pub pay-Balanced :
      (p : Option ℕ) (x : Totals) (h : Heap)
      → Sane x
      → ((o : ℕ) → points o p ≤ x.strongs o)
      → Balanced k (record x { debts = λ o. x.debts o + points o p }) h
      → Balanced (suc k) x (increment_strong p h)
  unfolding increment_strong increment_counter
  pay-Balanced none x h sane held b = record {
    each = λ o. ground (arith, b.each o);
    no_fault = b.no_fault;
  }
  pay-Balanced (some p) x h sane held b = record {
    each = λ o. ground (arith, early, b.each o, sane.owing o, sane.pending o, held o);
    no_fault = ground (arith, b.no_fault, b.each p, held p);
  }

  pub drop-Balanced :
      (p : Option ℕ) (x : Totals) (h : Heap)
      → Sane x
      → Balanced k (record x { strongs = λ o. x.strongs o + points o p }) h
      → Balanced (suc k) x (decrement_strong p h)
  unfolding decrement_strong increment_counter
  drop-Balanced none x h sane b = record {
    each = λ o. ground (arith, b.each o);
    no_fault = b.no_fault;
  }
  drop-Balanced (some p) x h sane b = record {
    each = λ o. ground (arith, early, b.each o, sane.owing o, sane.pending o);
    no_fault = ground (arith, b.no_fault, b.each p);
  }

  pub release-Balanced :
      (p : Option ℕ) (x : Totals) (h : Heap)
      → Sane x
      → Balanced k (record x { transients = λ o. x.transients o + points o p }) h
      → Balanced (suc k) x (decrement_transient p h)
  unfolding decrement_transient increment_counter
  release-Balanced none x h sane b = record {
    each = λ o. ground (arith, b.each o);
    no_fault = b.no_fault;
  }
  release-Balanced (some p) x h sane b = record {
    each = λ o. ground (arith, early, b.each o, sane.owing o, sane.pending o);
    no_fault = ground (arith, b.no_fault, b.each p);
  }

  -- The cell's reference and its stamp are counted off.
  pub merge-Balanced :
      (p : Option ℕ) (s : ℕ) (x : Totals) (h : Heap)
      → Sane x
      → Balanced k
          (record x {
            strongs = λ o. x.strongs o + points o p;
            stamps = λ o. x.stamps o + times s o p;
          })
          h
      → Balanced (suc k) x (increment_counter p minus_one s h)
  unfolding increment_counter
  merge-Balanced none s x h sane b = record {
    each = λ o. ground (arith, b.each o);
    no_fault = b.no_fault;
  }
  merge-Balanced (some p) s x h sane b = record {
    each = λ o. ground (arith, early, b.each o, b.each p, sane.owing o, sane.pending o);
    no_fault = ground (arith, b.no_fault, b.each p);
  }

  -- The same with a transient reference of the caller.
  pub merge_own-Balanced :
      (p : Option ℕ) (s : ℕ) (x : Totals) (h : Heap)
      → Sane x
      → ((o : ℕ) → points o p ≤ s)
      → Balanced k
          (record x {
            strongs = λ o. x.strongs o + points o p;
            transients = λ o. x.transients o + points o p;
            stamps = λ o. x.stamps o + times s o p;
          })
          h
      → Balanced (suc k) x (increment_counter p minus_one (add32 s minus_one) h)
  unfolding increment_counter
  merge_own-Balanced none s x h sane own b = record {
    each = λ o. ground (arith, b.each o);
    no_fault = b.no_fault;
  }
  merge_own-Balanced (some p) s x h sane own b = record {
    each = λ o. ground (arith, early, b.each o, b.each p, own o, sane.owing o, sane.pending o);
    no_fault = ground (arith, b.no_fault, b.each p);
  }
