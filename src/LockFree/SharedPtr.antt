-- ===== src/LockFree/SharedPtr.antt =====
-- tasks/lockfree/shared_ptr/shared_ptr.hpp: `SharedPtr` over control blocks with split counters, and
-- `AtomicSharedPtr`. The stamped pointer is one cell, as LockFree.StampedPtr shows it to be. A loop
-- around a compare-exchange is one step, the one in which the exchange succeeds.
pub mod Balance
pub mod Cell
pub mod Shares
pub mod Steps
pub mod Fits
pub mod Lifetime
mod Tests
use concurrency_course_by_li.Base.{
  ℕ, zero, suc, ◌+◌, ◌-◌, ◌*◌, ◌/◌, ◌%◌, ◌^◌, ◌≤◌, ◌<◌, ◌≡◌, refl, sym, ap, ◌∙◌, subst, ◌≢◌, ◌↔◌,
  ◌⊎◌, inl, inr, Bool, true, false, not, ◌&&◌, ◌||◌, Option, none, some, List, [], ◌∷◌, ◌++◌, map,
  append_assoc, append-nil, arith, ltb, leb, ◌==◌, if◌then◌else◌, ltb→lt, lt→ltb, ==_iff,
  Bool-cases, Option-cases, length, length-append, size_mod, wrap_add, wrap_sub,
}
use concurrency_course_by_li.Threads.{
  update, tally, tally-all, tally-update, le-tally, add-le-tally, tally-eq-zero, of_tally-eq-zero,
  member_of_tally, tally-map, tally-map_le, tally-alone, tally-none, add-tally-le, run_inv_timed,
  World, commit, turn, run, run_inv,
}

-- An `int32_t` is its bit pattern.
abbrev pub word_mod : ℕ
word_mod = 2 ^ 32

abbrev pub add32 : ℕ → ℕ → ℕ
add32 a b = (a + b) % word_mod

abbrev pub minus_one : ℕ
minus_one = 2 ^ 32 - 1

-- The control blocks, numbered in the order of their construction, with the two parts of their
-- counters; and the pointer and the stamp of `atomic_stamped_ptr_`. Not in the source: which blocks
-- exist, how many there were, and whether one was used behind its deletion.
pub record Heap : Type 0 where
  pub strong : ℕ → ℕ
  pub transient : ℕ → ℕ
  pub alive : ℕ → Bool
  pub fresh : ℕ
  pub fault : Bool
  pub raw_ptr : Option ℕ
  pub stamp : ℕ

abbrev pub create : Heap
create = record {
  strong = λ _. 0;
  transient = λ _. 0;
  alive = λ _. false;
  fresh = 0;
  fault = false;
  raw_ptr = none;
  stamp = 0;
}

-- `IncrementCounter` of a `SharedPtr` to `p`.
pub increment_counter : Option ℕ → ℕ → ℕ → Heap → Heap
increment_counter none ds dt h = h
increment_counter (some o) ds dt h =
    let strong' = add32 (h.strong o) ds in
    let transient' = add32 (h.transient o) dt in
    record h {
      strong = update h.strong o strong';
      transient = update h.transient o transient';
      alive = if strong' == 0 && transient' == 0 then update h.alive o false else h.alive;
      fault = h.fault || not (h.alive o);
    }

pub increment_strong : Option ℕ → Heap → Heap
unfolding increment_counter
increment_strong p h = increment_counter p 1 0 h

pub decrement_strong : Option ℕ → Heap → Heap
unfolding increment_counter
decrement_strong p h = increment_counter p minus_one 0 h

pub decrement_transient : Option ℕ → Heap → Heap
unfolding increment_counter
decrement_transient p h = increment_counter p 0 minus_one h

pub increment_transient : Option ℕ → ℕ → Heap → Heap
unfolding increment_counter
increment_transient p d h = increment_counter p 0 d h

-- `MakeShared`: a new block, with the strong reference of the `SharedPtr` that is constructed.
pub make_shared : Heap → Heap
make_shared h = record h {
  strong = update h.strong h.fresh 1;
  transient = update h.transient h.fresh 0;
  alive = update h.alive h.fresh true;
  fresh = suc h.fresh;
}

-- `AcquireTransientRef`; a null pointer is left as it is.
pub acquire_ref : Option ℕ → Heap → Heap
acquire_ref none h = h
acquire_ref (some o) h = record h { stamp = h.stamp + 1 }

-- The `Exchange` and the `Store` of the stamped pointer.
pub set_cell : Option ℕ → ℕ → Heap → Heap
set_cell p s h = record h { raw_ptr = p; stamp = s }

pub same_ptr : Option ℕ → Option ℕ → Bool
same_ptr none none = true
same_ptr (some a) (some b) = a == b
same_ptr _ _ = false

-- Handling of the stamp's overflow in `Load` starts above this.
abbrev pub limit : ℕ
limit = 64000

-- Where a thread stands. It has two variables of type `SharedPtr`, `mine` and `expected`, in its
-- record. Here `p` is the `desired` or `target` of a call, `q` and `s` what was read from the cell,
-- and `a` and `b` are local `SharedPtr`s that the end of the call destroys.
pub data Pc : Type 0 where
  idle : Pc
  assign_mine : (p : Option ℕ) → Pc
  copy_mine : Pc
  load_acquire : (a b : Option ℕ) → Pc
  load_share load_release load_shrink load_restore : (q : Option ℕ) (s : ℕ) (a b : Option ℕ) → Pc
  load_assign : (q a b : Option ℕ) → Pc
  store_own store_exchange : (p : Option ℕ) → Pc
  store_share store_merge : (p q : Option ℕ) (s : ℕ) → Pc
  cas_acquire : (p : Option ℕ) → Pc
  cas_share cas_swap cas_own cas_merge cas_fail : (p q : Option ℕ) (s : ℕ) → Pc
  cas_assign cas_release cas_unref : (p q : Option ℕ) → Pc
  dropping : (a b : Option ℕ) → Pc
  dropping_last : (b : Option ℕ) → Pc

pub record Thread : Type 0 where
  pub mine : Option ℕ
  pub expected : Option ℕ
  pub pc : Pc

-- What a thread calls next: `mine = MakeShared()`, `mine.Reset()`, `expected.Reset()`,
-- `mine = expected`, `expected = Load()`, `Store(mine)`, `CompareExchangeWeak(expected, mine)`.
pub data Call : Type 0 where
  call_make call_reset_mine call_reset_expected call_copy call_load call_store call_cas : Call

abbrev at : Thread → Pc → Thread
at t p = record t { pc = p }

-- The first step of a call. The parameters of `Store` and `CompareExchangeWeak` are copies.
pub start : Call → Heap → Thread → Heap × Thread
unfolding make_shared increment_strong decrement_strong
start call_make h t = (make_shared h, at t (assign_mine (some h.fresh)))
start call_reset_mine h t = (decrement_strong t.mine h, record t { mine = none })
start call_reset_expected h t = (decrement_strong t.expected h, record t { expected = none })
start call_copy h t = (decrement_strong t.mine h, record t { mine = none; pc = copy_mine })
start call_load h t = (h, at t (load_acquire none none))
start call_store h t = (increment_strong t.mine h, at t (store_own t.mine))
start call_cas h t = (increment_strong t.mine h, at t (cas_acquire t.mine))

-- One step of a thread. `spurious`: whether a weak compare-exchange fails where it might succeed.
pub act : Call → Bool → Pc → Heap → Thread → Heap × Thread
unfolding start increment_counter increment_strong decrement_strong decrement_transient
act c spurious idle h t = start c h t
act c spurious (assign_mine p) h t = (decrement_strong t.mine h, record t { mine = p; pc = idle })
act c spurious copy_mine h t =
    (increment_strong t.expected h, record t { mine = t.expected; pc = idle })
act c spurious (load_acquire a b) h t =
    let h' = acquire_ref h.raw_ptr h in (h', at t (load_share h.raw_ptr h'.stamp a b))
act c spurious (load_share q s a b) h t = (increment_strong q h, at t (load_release q s a b))
act c spurious (load_release q s a b) h t =
    (decrement_transient q h, at t (if ltb limit s then load_shrink q s a b else load_assign q a b))
act c spurious (load_shrink q s a b) h t =
    (increment_transient q limit h, at t (load_restore q (s - limit) a b))
act c spurious (load_restore q s a b) h t = (set_cell q s h, at t (load_assign q a b))
act c spurious (load_assign q a b) h t =
    (decrement_strong t.expected h, record t { expected = q; pc = dropping a b })
act c spurious (store_own p) h t = (increment_strong p h, at t (store_exchange p))
act c spurious (store_exchange p) h t = (set_cell p 0 h, at t (store_share p h.raw_ptr h.stamp))
act c spurious (store_share p q s) h t = (increment_strong q h, at t (store_merge p q s))
act c spurious (store_merge p q s) h t = (increment_counter q minus_one s h, at t (dropping q p))
act c spurious (cas_acquire p) h t =
    let h' = acquire_ref h.raw_ptr h in
    (
      h',
      at t (
          if same_ptr h.raw_ptr t.expected
          then cas_swap p t.expected h'.stamp
          else cas_share p h.raw_ptr h'.stamp),
    )
act c spurious (cas_share p q s) h t = (increment_strong q h, at t (cas_assign p q))
act c spurious (cas_assign p q) h t =
    (decrement_strong t.expected h, record t { expected = q; pc = cas_release p q })
act c spurious (cas_release p q) h t = (decrement_transient q h, at t (dropping_last p))
act c spurious (cas_swap p q s) h t =
    if same_ptr h.raw_ptr q && h.stamp == s && not spurious
    then (set_cell p 0 h, at t (cas_own p q s))
    else (h, at t (cas_fail p q s))
act c spurious (cas_own p q s) h t = (increment_strong p h, at t (cas_merge p q s))
act c spurious (cas_merge p q s) h t =
    (increment_counter q minus_one (add32 s minus_one) h, at t (dropping_last p))
act c spurious (cas_fail p q s) h t = (increment_strong q h, at t (cas_unref p q))
act c spurious (cas_unref p q) h t = (decrement_transient q h, at t (load_acquire q p))
act c spurious (dropping a b) h t = (decrement_strong a h, at t (dropping_last b))
act c spurious (dropping_last b) h t = (decrement_strong b h, at t idle)

unfoldable pub step : ℕ → Call × Bool → World Heap Thread → World Heap Thread
unfolding act
step i (c, spurious) w = commit i w (act c spurious (w.pc i).pc w.mem (w.pc i))

abbrev pub init : World Heap Thread
init = record { mem = create; pc = λ _. record { mine = none; expected = none; pc = idle } }
