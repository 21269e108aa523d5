-- ===== src/Memory/Refer/Moves.antt =====
-- Every operation of `Ref` in tasks/tasks/executors/exe/support/refer keeps the counts, as a
-- sequence of the primitives of Counts.
use concurrency_course_by_li.Base.{
  ℕ, suc, ◌+◌, ◌-◌, ◌<◌, ◌≡◌, refl, ◌∙◌, true, Option, none, some, arith, size_mod,
}
use concurrency_course_by_li.Threads.{update, le-tally}
use concurrency_course_by_li.Memory.Refer.{
  Store, add_ref, release_ref, add_valid, release_valid, set_obj, construct_null, construct_adopt,
  make_new, destroy, move_construct, assign, release, release_raw,
}
use concurrency_course_by_li.Memory.Refer.Counts.{
  points, Inv, with, add-Inv, release-Inv, put-Inv, moved-Inv,
}

module _ (n k : ℕ) (d : ℕ → ℕ) where
  -- Counted otherwise, in the same place.
  recount-Inv : (d' : ℕ → ℕ) (s : Store) → ((o : ℕ) → d' o ≡ d o) → Inv n k d s → Inv n k d' s
  recount-Inv d' s same h = moved-Inv n k d d' s.refs s.raw s (λ o. omega (arith, same o)) h

  pub later-Inv : (s : Store) → Inv n k d s → Inv n (suc k) d s
  later-Inv s h = record {
    counted = h.counted;
    life = h.life;
    unborn = h.unborn;
    small = λ o. omega (arith, h.small o);
    no_fault = h.no_fault;
  }

  -- What a `Ref` points to exists.
  pub alive_lem : (i o : ℕ) (s : Store) → i < n → s.refs i ≡ some o → Inv n k d s → s.alive o ≡ true
  alive_lem i o s lt e h =
      let one : points o (s.refs i) ≡ 1 = rw e (ground arith) in
      ground (arith, h.life o, le-tally (points o) n s.refs i lt, one)

  valid-Inv :
      (p : Option ℕ) (s : Store)
      → suc k < size_mod
      → ((o : ℕ) → p ≡ some o → s.alive o ≡ true)
      → Inv n k d s
      → Inv n (suc k) (with d p) (add_valid p s)
  unfolding add_valid
  valid-Inv none s short lives h =
      moved-Inv n (suc k) d (with d none) s.refs s.raw s (λ o. omega arith) (later-Inv s h)
  valid-Inv (some o) s short lives h = add-Inv n k d o s short (lives o refl) h

  drop-Inv :
      (p : Option ℕ) (s : Store)
      → k < size_mod
      → Inv n k (with d p) s
      → Inv n k d (release_valid p s)
  unfolding release_valid
  drop-Inv none s short h = moved-Inv n k (with d none) d s.refs s.raw s (λ o. omega arith) h
  drop-Inv (some o) s short h = release-Inv n k d o s short h

  -- A `Ref` is constructed from a pointer that is under way.
  fill-Inv :
      (i : ℕ) (p : Option ℕ) (s : Store)
      → i < n
      → s.refs i ≡ none
      → Inv n k (with d p) s
      → Inv n k d (set_obj i p s)
  fill-Inv i p s lt free h =
      moved-Inv n k (with d (s.refs i)) d (update s.refs i p) s.raw (set_obj i p s)
        (λ o. rw free (omega arith)) (put-Inv n k d i p s lt h)

  -- A `Ref` gives its pointer up.
  clear-Inv :
      (i : ℕ) (s : Store) → i < n → Inv n k d s → Inv n k (with d (s.refs i)) (set_obj i none s)
  clear-Inv i s lt h =
      put-Inv n k d i none s lt (moved-Inv n k d (with d none) s.refs s.raw s (λ o. omega arith) h)

-- The primitives on counts and those on slots commute.
add-set :
    (p : Option ℕ) (i : ℕ) (q : Option ℕ) (s : Store)
    → add_valid p (set_obj i q s) ≡ set_obj i q (add_valid p s)
unfolding add_valid add_ref
add-set none i q s = refl
add-set (some o) i q s = refl

release-set :
    (p : Option ℕ) (i : ℕ) (q : Option ℕ) (s : Store)
    → set_obj i q (release_valid p s) ≡ release_valid p (set_obj i q s)
unfolding release_valid release_ref
release-set none i q s = refl
release-set (some o) i q s = refl

raw-set :
    (p : Option ℕ) (i : ℕ) (q : Option ℕ) (s : Store)
    → set_obj i q (release_raw p s) ≡ release_raw p (set_obj i q s)
unfolding release_raw
raw-set none i q s = refl
raw-set (some o) i q s = refl

refs-add : (p : Option ℕ) (s : Store) (i : ℕ) → (add_valid p s).refs i ≡ s.refs i
unfolding add_valid add_ref
refs-add none s i = refl
refs-add (some o) s i = refl

module _ (n k : ℕ) (short : suc k < size_mod) (d : ℕ → ℕ) (i : ℕ) (lt : i < n) (s : Store)
    (h : Inv n k d s) where
  pub null-Inv : s.refs i ≡ none → Inv n (suc k) d (construct_null i s)
  unfolding construct_null
  null-Inv free = later-Inv n k d _ (
      fill-Inv n k d i none s lt free
        (moved-Inv n k d (with d none) s.refs s.raw s (λ o. omega arith) h))

  -- Any `Ref` that is constructed from a pointer to an object that exists.
  pub shared-Inv :
      (p : Option ℕ)
      → s.refs i ≡ none
      → ((o : ℕ) → p ≡ some o → s.alive o ≡ true)
      → Inv n (suc k) d (add_valid p (set_obj i p s))
  shared-Inv p free lives = rw (add-set p i p s) (
      fill-Inv n (suc k) d i p (add_valid p s) lt (refs-add p s i ∙ free)
        (valid-Inv n k d p s short lives h))

  pub destroy-Inv : Inv n (suc k) d (destroy i s)
  unfolding destroy
  destroy-Inv = later-Inv n k d _ (
      rw (release-set (s.refs i) i none s)
        (drop-Inv n k d (s.refs i) _ (omega arith) (clear-Inv n k d i s lt h)))

  pub move-Inv :
      (j : ℕ) → j < n → s.refs i ≡ none → (i ≡ j → ⊥) → Inv n (suc k) d (move_construct i j s)
  unfolding move_construct
  move-Inv j lt_j free apart = later-Inv n k d _ (
      fill-Inv n k d i (s.refs j) (set_obj j none s) lt (ground (arith, free, apart))
        (clear-Inv n k d j s lt_j h))

  pub assign-Inv : (j : ℕ) → j < n → Inv n (suc k) d (assign i j s)
  unfolding assign
  assign-Inv j lt_j =
      let copied : Inv n (suc k) (with d (s.refs j)) (add_valid (s.refs j) s) =
        valid-Inv n k d (s.refs j) s short (λ o e. alive_lem n k d j o s lt_j e h) h in
      drop-Inv n (suc k) d ((add_valid (s.refs j) s).refs i) _ short
        (put-Inv n (suc k) d i (s.refs j) (add_valid (s.refs j) s) lt copied)

  raw-Inv : (p : Option ℕ) (t : Store) → Inv n k (with d p) t → Inv n k d (release_raw p t)
  unfolding release_raw
  raw-Inv none t g = moved-Inv n k (with d none) d t.refs t.raw t (λ o. omega arith) g
  raw-Inv (some o) t g =
      moved-Inv n k (with d (some o)) d t.refs (update t.raw o (t.raw o + 1)) t (λ o'. ground arith)
        g

  pub release-raw-Inv : Inv n (suc k) d (release i s)
  unfolding release
  release-raw-Inv =
      later-Inv n k d _
        (rw (raw-set (s.refs i) i none s) (raw-Inv (s.refs i) _ (clear-Inv n k d i s lt h)))

  pub adopt-Inv : (o : ℕ) → s.refs i ≡ none → 0 < s.raw o → Inv n (suc k) d (construct_adopt i o s)
  unfolding construct_adopt
  adopt-Inv o free has = later-Inv n k d _ (
      fill-Inv n k d i (some o) _ lt free (
        moved-Inv n k d (with d (some o)) s.refs (update s.raw o (s.raw o - 1)) s
          (λ o'. ground (arith, has)) h))

  born-Inv : Inv n (suc k) (with d (some s.fresh)) (record s {
    counts = update s.counts s.fresh 1;
    alive = update s.alive s.fresh true;
    fresh = suc s.fresh;
  })
  born-Inv = record {
    counted = λ o. ground (arith, h.counted o, h.unborn o);
    life = λ o. ground (arith, h.life o, h.unborn o);
    unborn = λ o out. ground (arith, h.unborn o, out);
    small = λ o. ground (arith, h.small o);
    no_fault = h.no_fault;
  }

  pub new-Inv : s.refs i ≡ none → Inv n (suc k) d (make_new i s)
  unfolding make_new
  new-Inv free = fill-Inv n (suc k) d i (some s.fresh) _ lt free born-Inv
