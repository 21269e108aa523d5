-- ===== src/Futures/RefCounter.antt =====
-- tasks/futures/fun/exe/support/ref_counter.hpp: a counter that counts its users, too, and deletes
-- itself behind the last one.
use concurrency_course_by_li.Base.{ℕ, Bool, false, ◌||◌, ◌==◌, wrap_sub}

-- `is_deleted` and `fault` are not in the source: whether the object is gone, and whether it was
-- used behind its deletion.
pub record RefCounter : Type 0 where
  pub value : ℕ
  pub ref_count : ℕ
  pub is_deleted : Bool
  pub fault : Bool

unfoldable pub construct : ℕ → ℕ → RefCounter
construct init_ref_count init_value = record {
  value = init_value;
  ref_count = init_ref_count;
  is_deleted = false;
  fault = false;
}

-- `value.fetch_sub(1)`, and the value before it.
unfoldable pub fetch_sub_value : RefCounter → RefCounter × ℕ
fetch_sub_value c =
    (record c { value = wrap_sub c.value 1; fault = c.fault || c.is_deleted }, c.value)

-- `ReleaseRef`, with `DestroySelf`.
unfoldable pub release_ref : RefCounter → RefCounter
release_ref c = record c {
  ref_count = wrap_sub c.ref_count 1;
  is_deleted = c.is_deleted || c.ref_count == 1;
  fault = c.fault || c.is_deleted;
}
