-- ===== src/LockFree/StampedPtr/Tests.antt =====
-- Packed words of tasks/lockfree/stack/atomic_stamped_ptr.hpp.
use concurrency_course_by_li.Base.{◌-◌, ◌%◌, ◌≡◌, refl, ◌≢◌, ◌↔◌, ◌⊎◌, inl, inr, true, false, arith}
use concurrency_course_by_li.LockFree.StampedPtr.{
  StampedPtr, word_mod, pack, unpack, create, store, load, exchange, increment_stamp,
  compare_exchange_weak,
}
use concurrency_course_by_li.LockFree.StampedPtr.Packing.{
  stamped_ptr_roundtrip, pack_iff, stamped_ptr_cell,
}

-- An address of user space with stamp 42, and one of the upper half with the greatest stamp.
abbrev low_ptr : StampedPtr
low_ptr = record { raw_ptr = 4096; stamp = 42 }

abbrev high_ptr : StampedPtr
high_ptr = record { raw_ptr = word_mod - 4096; stamp = 65535 }

stamped_ptr_roundtrip_example : unpack (pack high_ptr) ≡ high_ptr
stamped_ptr_roundtrip_example =
    stamped_ptr_roundtrip high_ptr (inr (omega arith, omega arith), omega arith)

-- One more step of the stamp brings it back to 0.
stamp_wraps :
    pack (increment_stamp high_ptr) ≡ pack (record { raw_ptr = word_mod - 4096; stamp = 0 })
unfolding pack increment_stamp
stamp_wraps = refl

pack_iff_example :
    (pack low_ptr ≡ pack high_ptr) ↔ ((4096 ≡ word_mod - 4096) × (42 % 65536 ≡ 65535 % 65536))
pack_iff_example = pack_iff low_ptr high_ptr (inl (omega arith)) (inr (omega arith, omega arith))

stamped_ptr_cell_example :
    let a = create low_ptr in
    let r = compare_exchange_weak false low_ptr high_ptr a in
    (load (store low_ptr a) ≡ low_ptr)
    × ((exchange low_ptr a).1 ≡ low_ptr)
    × (load (exchange low_ptr a).0 ≡ low_ptr)
    × (((r.2 ≡ true) × (false ≡ false) × (low_ptr ≡ low_ptr) × (load r.0 ≡ high_ptr))
        ⊎ ((r.2 ≡ false)
            × ((false ≡ true) ⊎ (low_ptr ≢ low_ptr))
            × (load r.0 ≡ low_ptr)
            × (r.1 ≡ low_ptr)))
stamped_ptr_cell_example =
    stamped_ptr_cell low_ptr low_ptr high_ptr false (inl (omega arith), omega arith)
      (inl (omega arith), omega arith) (inr (omega arith, omega arith), omega arith)
