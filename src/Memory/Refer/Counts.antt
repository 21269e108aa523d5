-- ===== src/Memory/Refer/Counts.antt =====
-- The counts of tasks/tasks/executors/exe/support/refer are those of the references there are; each
-- primitive keeps this, with references that are under way in a call counted in `d`.
use concurrency_course_by_li.Base.{
  ℕ, suc, ◌+◌, ◌≤◌, ◌<◌, ◌≡◌, refl, sym, ◌∙◌, subst, ◌⊎◌, inr, Bool, true, false, Option, none,
  some, arith, ◌==◌, if◌then◌else◌, size_mod,
}
use concurrency_course_by_li.Threads.{update, tally, tally-update, tally-eq-zero}
use concurrency_course_by_li.Memory.Refer.{Store, add_ref, release_ref, set_obj, create}

-- Whether a `Ref` with this pointer refers to the object.
abbrev pub points : ℕ → Option ℕ → ℕ
points o none = 0
points o (some p) = if p == o then 1 else 0

-- The references to an object: the `Ref`s, the plain pointers that own one, and those under way.
abbrev pub references : ℕ → (ℕ → ℕ) → Store → ℕ → ℕ
references n d s o = tally (points o) n s.refs + s.raw o + d o

-- Objects exist exactly as long as there are references to them.
abbrev pub Lives : Bool → ℕ → Type 0
Lives b r = ((b ≡ true) × (0 < r)) ⊎ ((b ≡ false) × (r ≡ 0))

pub record Inv (n k : ℕ) (d : ℕ → ℕ) (s : Store) : Type 0 where
  pub counted : (o : ℕ) → s.counts o ≡ references n d s o
  pub life : (o : ℕ) → Lives (s.alive o) (references n d s o)
  pub unborn : (o : ℕ) → s.fresh ≤ o → references n d s o ≡ 0
  pub small : (o : ℕ) → references n d s o ≤ k
  pub no_fault : s.fault ≡ false

abbrev pub none_under_way : ℕ → ℕ
none_under_way _ = 0

abbrev pub with : (ℕ → ℕ) → Option ℕ → ℕ → ℕ
with d p o = d o + points o p

pub init-Inv : (n : ℕ) → Inv n 0 none_under_way create
init-Inv n =
    let nothing : (o : ℕ) → references n none_under_way create o ≡ 0 =
      λ o. omega (arith, tally-eq-zero (points o) n (λ _. none) (λ i lt. refl)) in
    record {
      counted = λ o. sym (nothing o);
      life = λ o. inr (refl, nothing o);
      unborn = λ o _. nothing o;
      small = λ o. omega (arith, nothing o);
      no_fault = refl;
    }

module _ (n k : ℕ) (d : ℕ → ℕ) where
  pub add-Inv :
      (o : ℕ) (s : Store)
      → suc k < size_mod
      → s.alive o ≡ true
      → Inv n k d s
      → Inv n (suc k) (with d (some o)) (add_ref o s)
  unfolding add_ref
  add-Inv o s short lives h = record {
    counted = λ o'. ground (arith, h.counted o', h.counted o, h.small o');
    life = λ o'. ground (arith, h.life o', lives);
    unborn = λ o' out. ground (arith, h.unborn o' out, h.life o', lives);
    small = λ o'. ground (arith, h.small o');
    no_fault = ground (arith, h.no_fault, lives);
  }

  pub release-Inv :
      (o : ℕ) (s : Store) → k < size_mod → Inv n k (with d (some o)) s → Inv n k d (release_ref o s)
  unfolding release_ref
  release-Inv o s short h = record {
    counted = λ o'. ground (arith, h.counted o', h.counted o, h.small o');
    life = λ o'. ground (arith, h.life o', h.counted o, h.life o);
    unborn = λ o' out. ground (arith, h.unborn o' out);
    small = λ o'. ground (arith, h.small o');
    no_fault = ground (arith, h.no_fault, h.life o);
  }

  -- The references may change hands.
  pub moved-Inv :
      (d' : ℕ → ℕ) (f : ℕ → Option ℕ) (r : ℕ → ℕ) (s : Store)
      → ((o : ℕ) → tally (points o) n f + r o + d' o ≡ references n d s o)
      → Inv n k d s
      → Inv n k d' (record s { refs = f; raw = r })
  moved-Inv d' f r s same h = record {
    counted = λ o. h.counted o ∙ sym (same o);
    life = λ o. subst (λ m. Lives (s.alive o) m) (sym (same o)) (h.life o);
    unborn = λ o out. same o ∙ h.unborn o out;
    small = λ o. omega (arith, same o, h.small o);
    no_fault = h.no_fault;
  }

module _ (n k : ℕ) (d : ℕ → ℕ) where
  -- A pointer that is under way goes into a `Ref`, and the one that was there is under way.
  pub put-Inv :
      (i : ℕ) (p : Option ℕ) (s : Store)
      → i < n
      → Inv n k (with d p) s
      → Inv n k (with d (s.refs i)) (set_obj i p s)
  put-Inv i p s lt h =
      moved-Inv n k (with d p) (with d (s.refs i)) (update s.refs i p) s.raw s
        (λ o. omega (arith, tally-update (points o) n s.refs i p lt)) h
