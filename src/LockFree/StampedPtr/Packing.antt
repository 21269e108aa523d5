-- ===== src/LockFree/StampedPtr/Packing.antt =====
-- What the packing of tasks/lockfree/stack/atomic_stamped_ptr.hpp keeps.
use concurrency_course_by_li.Base.{
  ℕ, ◌+◌, ◌-◌, ◌/◌, ◌%◌, ◌^◌, ◌≤◌, ◌<◌, ◌≡◌, refl, sym, ap, ◌∙◌, ◌≢◌, ◌↔◌, ◌⊎◌, inl, inr, Bool,
  true, false, arith, ◌==◌, ==_iff, Bool-cases,
}
use concurrency_course_by_li.LockFree.StampedPtr.{
  to_canonical_form, get_bit, StampedPtr, low_mod, word_mod, max_stamp, pack, unpack, store, load,
  exchange, create, compare_exchange_weak,
}

-- A canonical address: its bits from 47 on are equal.
abbrev pub IsCanonical : ℕ → Type 0
IsCanonical p = (p < 2 ^ 47) ⊎ ((word_mod - 2 ^ 47 ≤ p) × (p < word_mod))

-- What fits the packed word.
abbrev pub Fits : StampedPtr → Type 0
Fits x = IsCanonical x.raw_ptr × (x.stamp ≤ max_stamp)

-- `pack` has the pointer's low 48 bits below, and the stamp's low 16 bits above.
pack-low : (p s : ℕ) → pack (record { raw_ptr = p; stamp = s }) % low_mod ≡ p % low_mod
unfolding pack
pack-low p s = omega arith

pack-high : (p s : ℕ) → pack (record { raw_ptr = p; stamp = s }) / low_mod ≡ s % (max_stamp + 1)
unfolding pack
pack-high p s = omega arith

canonical_lem : (w p : ℕ) → IsCanonical p → w % low_mod ≡ p % low_mod → to_canonical_form w ≡ p
canonical_lem w p c e = elim (Bool-cases (get_bit w 47 == 0)) [
  | inl low ↦ rw low (ground (arith, c))
  | inr high ↦ rw high (ground (arith, c))
]

stamped-eq : (x y : StampedPtr) → x.raw_ptr ≡ y.raw_ptr → x.stamp ≡ y.stamp → x ≡ y
stamped-eq x y e f =
    ap (λ r. record { raw_ptr = r; stamp = x.stamp }) e
    ∙ ap (λ s. record { raw_ptr = y.raw_ptr; stamp = s }) f

-- A stamped pointer that fits comes back from the packed word as it was.
pub stamped_ptr_roundtrip : (x : StampedPtr) → Fits x → unpack (pack x) ≡ x
unfolding unpack
stamped_ptr_roundtrip x (c, s) =
    stamped-eq _ _ (canonical_lem (pack x) x.raw_ptr c (pack-low x.raw_ptr x.stamp))
      (omega (arith, pack-high x.raw_ptr x.stamp))

-- For canonical pointers, two stamped pointers have the same word exactly when the pointers are
-- equal and the stamps are equal modulo 2^16.
pub pack_iff :
    (x y : StampedPtr)
    → IsCanonical x.raw_ptr
    → IsCanonical y.raw_ptr
    → (pack x ≡ pack y)
      ↔ ((x.raw_ptr ≡ y.raw_ptr) × (x.stamp % (max_stamp + 1) ≡ y.stamp % (max_stamp + 1)))
pack_iff x y cx cy = (
  λ e. (
    sym (canonical_lem (pack x) x.raw_ptr cx (pack-low x.raw_ptr x.stamp))
        ∙ ap to_canonical_form e
        ∙ canonical_lem (pack y) y.raw_ptr cy (pack-low y.raw_ptr y.stamp),
    sym (pack-high x.raw_ptr x.stamp) ∙ ap (λ w. w / low_mod) e ∙ pack-high y.raw_ptr y.stamp,
  ),
  λ (e, f). omega (
    arith,
    e,
    f,
    pack-low x.raw_ptr x.stamp,
    pack-low y.raw_ptr y.stamp,
    pack-high x.raw_ptr x.stamp,
    pack-high y.raw_ptr y.stamp,
  ),
)

-- The words of stamped pointers that fit are different if they are.
pack-inj : (x y : StampedPtr) → Fits x → Fits y → pack x ≡ pack y → x ≡ y
pack-inj x y fx fy e = sym (stamped_ptr_roundtrip x fx) ∙ ap unpack e ∙ stamped_ptr_roundtrip y fy

-- On stamped pointers that fit, the atomic word is an atomic cell of stamped pointers: `Load`
-- and `Exchange` return what was stored last, and `CompareExchangeWeak` stores the desired value
-- and returns true only if the cell held the expected one, always then unless it fails spuriously,
-- and otherwise leaves the cell as it was and puts its value into `expected`.
pub stamped_ptr_cell :
    (x y z : StampedPtr) (spurious : Bool)
    → Fits x
    → Fits y
    → Fits z
    → let a = create x in
      let r = compare_exchange_weak spurious y z a in
      (load (store y a) ≡ y)
      × ((exchange y a).1 ≡ x)
      × (load (exchange y a).0 ≡ y)
      × (((r.2 ≡ true) × (spurious ≡ false) × (x ≡ y) × (load r.0 ≡ z))
          ⊎ ((r.2 ≡ false) × ((spurious ≡ true) ⊎ (x ≢ y)) × (load r.0 ≡ x) × (r.1 ≡ x)))
unfolding create store load exchange compare_exchange_weak
stamped_ptr_cell x y z spurious fx fy fz = (
  stamped_ptr_roundtrip y fy,
  stamped_ptr_roundtrip x fx,
  stamped_ptr_roundtrip y fy,
  elim (Bool-cases (pack x == pack y)) [
    | inl same ↦ elim (Bool-cases spurious) [
      | inl fails ↦
          rw (same, fails)
            (inr (refl, inl refl, stamped_ptr_roundtrip x fx, stamped_ptr_roundtrip x fx))
      | inr works ↦
          rw (same, works)
            (inl (refl, refl, pack-inj x y fx fy ((==_iff _ _).0 same), stamped_ptr_roundtrip z fz))
    ]
    | inr apart ↦ rw apart (
        inr (
          refl,
          inr (λ e. ground (arith, ap pack e)),
          stamped_ptr_roundtrip x fx,
          stamped_ptr_roundtrip x fx,
        ))
  ],
)
