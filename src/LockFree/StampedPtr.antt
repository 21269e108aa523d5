-- ===== src/LockFree/StampedPtr.antt =====
-- tasks/lockfree/stack/atomic_stamped_ptr.hpp: a 48-bit pointer and a 16-bit stamp in one 64-bit
-- word. A `T*` is its address. The bitwise operations are written as arithmetic: `>> 48` and
-- `<< 48` as a quotient by and a product with 2^48, the masks of the low 48 bits as a remainder,
-- and `|` of words without a common bit as their sum.
pub mod Packing
mod Tests
use concurrency_course_by_li.Base.{
  ℕ, zero, suc, ◌+◌, ◌-◌, ◌*◌, ◌/◌, ◌%◌, ◌^◌, ◌≤◌, ◌<◌, ◌≡◌, refl, sym, ap, ◌∙◌, subst, ◌≢◌, ◌↔◌,
  ◌⊎◌, inl, inr, Bool, true, false, not, ◌&&◌, ◌||◌, Option, none, some, List, [], ◌∷◌, ◌++◌, map,
  append_assoc, append-nil, arith, ltb, leb, ◌==◌, if◌then◌else◌, ltb→lt, lt→ltb, ==_iff,
  Bool-cases, Option-cases, length, length-append,
}

abbrev pub word_mod : ℕ
word_mod = 2 ^ 64

abbrev pub low_mod : ℕ
low_mod = 2 ^ 48

abbrev pub free_bits_mask : ℕ
free_bits_mask = (2 ^ 16 - 1) * low_mod

abbrev pub max_stamp : ℕ
max_stamp = 2 ^ 16 - 1

pub record StampedPtr : Type 0 where
  pub raw_ptr : ℕ
  pub stamp : ℕ

pub increment_stamp : StampedPtr → StampedPtr
increment_stamp x = record x { stamp = (x.stamp + 1) % word_mod }

-- An assertion that fails is `none`.
pub decrement_stamp : StampedPtr → Option StampedPtr
decrement_stamp x = if x.stamp == 0 then none else some (record x { stamp = x.stamp - 1 })

abbrev pub get_bit : ℕ → ℕ → ℕ
get_bit mask index = mask / 2 ^ index % 2

abbrev pub clear_free_bits : ℕ → ℕ
clear_free_bits mask = mask % low_mod

abbrev pub set_free_bits : ℕ → ℕ
set_free_bits mask = mask % low_mod + free_bits_mask

abbrev pub to_canonical_form : ℕ → ℕ
to_canonical_form p = if get_bit p 47 == 0 then clear_free_bits p else set_free_bits p

abbrev pub get_stamp : ℕ → ℕ
get_stamp packed = packed / low_mod

abbrev pub get_raw_pointer : ℕ → ℕ
get_raw_pointer packed = to_canonical_form packed

unfoldable pub pack : StampedPtr → ℕ
pack x = clear_free_bits x.raw_ptr + x.stamp * low_mod % word_mod

unfoldable pub unpack : ℕ → StampedPtr
unpack packed = record { raw_ptr = get_raw_pointer packed; stamp = get_stamp packed }

-- `AtomicStampedPtr`.
pub record AtomicStampedPtr : Type 0 where
  pub packed_ptr : ℕ

pub create : StampedPtr → AtomicStampedPtr
create x = record { packed_ptr = pack x }

pub store : StampedPtr → AtomicStampedPtr → AtomicStampedPtr
store x a = record { packed_ptr = pack x }

unfoldable pub load : AtomicStampedPtr → StampedPtr
load a = unpack a.packed_ptr

pub exchange : StampedPtr → AtomicStampedPtr → AtomicStampedPtr × StampedPtr
exchange target a = (record { packed_ptr = pack target }, unpack a.packed_ptr)

-- The atomic, `expected` after the call, and whether it succeeded. A weak compare-exchange may
-- also fail when the words are equal.
unfoldable pub compare_exchange_weak :
    Bool → StampedPtr → StampedPtr → AtomicStampedPtr → AtomicStampedPtr × StampedPtr × Bool
compare_exchange_weak spurious expected desired a =
    if a.packed_ptr == pack expected && not spurious
    then (record { packed_ptr = pack desired }, expected, true)
    else (a, unpack a.packed_ptr, false)
