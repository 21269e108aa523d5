-- ===== src/Memory/Refer.antt =====
-- tasks/tasks/executors/exe/support/refer: intrusive reference counts. The `Ref` variables of a
-- program are slots, and the objects have numbers in the order of their construction. `RefCounted`
-- is the object's side, `Ref` the variable's.
pub mod Counts
pub mod Moves
pub mod Lifetime
mod Tests
use concurrency_course_by_li.Base.{
  ℕ, zero, suc, ◌+◌, ◌-◌, ◌*◌, ◌/◌, ◌%◌, ◌^◌, ◌≤◌, ◌<◌, ◌≡◌, refl, sym, ap, ◌∙◌, subst, ◌≢◌, ◌↔◌,
  ◌⊎◌, inl, inr, Bool, true, false, not, ◌&&◌, ◌||◌, Option, none, some, List, [], ◌∷◌, ◌++◌, map,
  append_assoc, append-nil, arith, ltb, leb, ◌==◌, if◌then◌else◌, ltb→lt, lt→ltb, ==_iff,
  Bool-cases, Option-cases, length, length-append, size_mod, wrap_add, wrap_sub,
}
use concurrency_course_by_li.Threads.{
  update, tally, tally-update, le-tally, add-le-tally, tally-eq-zero, of_tally-eq-zero,
  member_of_tally, tally-map, tally-map_le, tally-alone, tally-none, add-tally-le, run_inv_timed,
  World, commit, turn, run, run_inv,
}

-- `obj_` of each `Ref`, `ref_count_` of each object, which objects exist, and whether an object was
-- used behind its deletion. `raw` is not in the source: the counted references that `Release` has
-- given away as plain pointers and that wait to be adopted.
pub record Store : Type 0 where
  pub refs : ℕ → Option ℕ
  pub counts : ℕ → ℕ
  pub alive : ℕ → Bool
  pub fresh : ℕ
  pub fault : Bool
  pub raw : ℕ → ℕ

abbrev pub create : Store
create = record {
  refs = λ _. none;
  counts = λ _. 0;
  alive = λ _. false;
  fresh = 0;
  fault = false;
  raw = λ _. 0;
}

-- `RefCounted::AddRef`.
pub add_ref : ℕ → Store → Store
add_ref o s = record s {
  counts = update s.counts o (wrap_add (s.counts o) 1);
  fault = s.fault || not (s.alive o);
}

-- `RefCounted::ReleaseRef`, with `DestroySelf`.
pub release_ref : ℕ → Store → Store
release_ref o s = record s {
  counts = update s.counts o (wrap_sub (s.counts o) 1);
  alive = if s.counts o == 1 then update s.alive o false else s.alive;
  fault = s.fault || not (s.alive o);
}

-- `RefCounted::GetRefCount`.
pub get_ref_count : ℕ → Store → ℕ
get_ref_count o s = s.counts o

-- `if (IsValid()) AddRef();` and `if (IsValid()) ReleaseRef();` of a `Ref` to `p`.
unfoldable pub add_valid : Option ℕ → Store → Store
unfolding add_ref
add_valid none s = s
add_valid (some o) s = add_ref o s

unfoldable pub release_valid : Option ℕ → Store → Store
unfolding release_ref
release_valid none s = s
release_valid (some o) s = release_ref o s

abbrev pub set_obj : ℕ → Option ℕ → Store → Store
set_obj i p s = record s { refs = update s.refs i p }

-- `Ref(nullptr)` and `Ref()`.
pub construct_null : ℕ → Store → Store
construct_null i s = set_obj i none s

-- `Ref(U* obj)`.
pub construct_from : ℕ → ℕ → Store → Store
construct_from i o s = add_valid (some o) (set_obj i (some o) s)

-- `Ref(U* obj, AdoptRef)` of a pointer that was released.
pub construct_adopt : ℕ → ℕ → Store → Store
construct_adopt i o s = set_obj i (some o) (record s { raw = update s.raw o (s.raw o - 1) })

-- `New`: a new object with the count 1, adopted.
pub make_new : ℕ → Store → Store
make_new i s = set_obj i (some s.fresh) (record s {
  counts = update s.counts s.fresh 1;
  alive = update s.alive s.fresh true;
  fresh = suc s.fresh;
})

-- `~Ref`.
pub destroy : ℕ → Store → Store
destroy i s = set_obj i none (release_valid (s.refs i) s)

-- `Ref(const Ref& that)`.
pub copy_construct : ℕ → ℕ → Store → Store
copy_construct i j s = add_valid (s.refs j) (set_obj i (s.refs j) s)

-- `Ref(Ref&& that)`: `Release` of `that`, taken over.
pub move_construct : ℕ → ℕ → Store → Store
move_construct i j s = set_obj i (s.refs j) (set_obj j none s)

-- `operator=(Ref that)` with a copy of `j`: the parameter is copied, swapped, and destroyed.
pub assign : ℕ → ℕ → Store → Store
assign i j s =
    let copied = add_valid (s.refs j) s in
    release_valid (copied.refs i) (set_obj i (s.refs j) copied)

-- `Reset`.
pub reset : ℕ → Store → Store
reset i s = set_obj i none (release_valid (s.refs i) s)

-- `Release`: the pointer leaves the `Ref` with its reference.
unfoldable pub release_raw : Option ℕ → Store → Store
release_raw none s = s
release_raw (some o) s = record s { raw = update s.raw o (s.raw o + 1) }

pub release : ℕ → Store → Store
release i s = set_obj i none (release_raw (s.refs i) s)

-- A statement of the program about its `Ref`s. `call_new`, `call_from`, `call_adopt`, `call_copy`
-- and `call_move` construct a `Ref` in the slot.
pub data Call : Type 0 where
  call_null call_new call_destroy call_reset call_release : Call
  call_from call_adopt : (obj : ℕ) → Call
  call_copy call_move call_assign : (that : ℕ) → Call

abbrev pub is_null : Option ℕ → Bool
is_null none = true
is_null (some _) = false

-- What the caller has to see to: a `Ref` is constructed where there is none, a plain pointer points
-- to an object that exists, an adopted one was released; the slots are those below `n`.
pub is_legal : ℕ → ℕ → Call → Store → Bool
is_legal n i call_null s = is_null (s.refs i)
is_legal n i call_new s = is_null (s.refs i)
is_legal n i (call_from o) s = is_null (s.refs i) && s.alive o
is_legal n i (call_adopt o) s = is_null (s.refs i) && ltb 0 (s.raw o)
is_legal n i (call_copy j) s = is_null (s.refs i) && ltb j n
is_legal n i (call_move j) s = is_null (s.refs i) && ltb j n && not (i == j)
is_legal n i (call_assign j) s = ltb j n
is_legal n i _ s = true

pub execute : ℕ → Call → Store → Store
unfolding construct_null construct_from construct_adopt make_new destroy copy_construct
execute i call_null s = construct_null i s
execute i call_new s = make_new i s
execute i call_destroy s = destroy i s
execute i call_reset s = reset i s
execute i call_release s = release i s
execute i (call_from o) s = construct_from i o s
execute i (call_adopt o) s = construct_adopt i o s
execute i (call_copy j) s = copy_construct i j s
execute i (call_move j) s = move_construct i j s
execute i (call_assign j) s = assign i j s

unfoldable pub step : ℕ → ℕ → Call → Store → Store
unfolding is_legal execute
step n i call s = if is_legal n i call s then execute i call s else s
