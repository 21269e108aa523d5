-- ===== src/Cond/BoundedQueue/Seen.antt =====
-- Who changes the buffer of the bounded queue (tasks/cond/semaphore/queue.hpp) is alone there, so that
-- what it has seen of the buffer stays true, and the order of the values is kept.
use concurrency_course_by_li.Base.{
  ◌≡◌, refl, sym, ap, ◌∙◌, Option, none, some, List, [], ◌∷◌, ◌++◌, append_assoc, arith,
}
use concurrency_course_by_li.Cond.Semaphore.{Semaphore}
use concurrency_course_by_li.Cond.BoundedQueue.{
  Queue, Line, want_token, token_asleep, want_mutex, mutex_asleep, at_buffer, leave_mutex,
  give_token, Pc, outside, putting, taking, pushing, popping, Call, call_put, call_take, act,
  put_line, take_line, take_front, write_back, pop_front, acquire_or_sleep, Notify, wake,
}
use concurrency_course_by_li.Cond.BoundedQueue.Invariant.{in_mutex, back_of, front_of}

module _ {T : Type 0} where
  abbrev pub head_of : List T → Option T
  head_of [] = none
  head_of (v ∷ rest) = some v

  -- What a thread has seen of the buffer.
  pub record Sees (q : Queue T) (p : Pc T) : Type 0 where
    pub back : (b : List T) → back_of p ≡ some b → b ≡ q.buffer
    pub front : (v : T) → front_of p ≡ some v → head_of q.buffer ≡ some v

  -- A step that leaves the buffer as it is.
  record Kept (q : Queue T) (r : Queue T × Pc T × Notify) : Type 0 where
    buffer : r.0.buffer ≡ q.buffer
    accepted : r.0.accepted ≡ q.accepted
    taken : r.0.taken ≡ q.taken
    sees : Sees q r.1

  pub blind : (q : Queue T) (p : Pc T) → back_of p ≡ none → front_of p ≡ none → Sees q p
  blind q p eb ef = record {
    back = λ b e. absurd (ground (arith, e, eb));
    front = λ v e. absurd (ground (arith, e, ef));
  }

  same-Kept : (q : Queue T) (p : Pc T) (s : Notify) → Sees q p → Kept q (q, p, s)
  same-Kept q p s sees = record { buffer = refl; accepted = refl; taken = refl; sees = sees }

  -- An acquire touches semaphores only.
  acquire-Kept :
      (q : Queue T) (s : Option Semaphore) (put_back : Semaphore → Queue T) (go sleep : Pc T)
      → ((s : Semaphore)
          → ((put_back s).buffer ≡ q.buffer)
            × ((put_back s).accepted ≡ q.accepted)
            × ((put_back s).taken ≡ q.taken))
      → Sees q go
      → Sees q sleep
      → Kept q (acquire_or_sleep q s put_back go sleep)
  acquire-Kept q none put_back go sleep k sees_go sees_sleep = same-Kept q sleep _ sees_sleep
  acquire-Kept q (some s) put_back go sleep k sees_go sees_sleep = record {
    buffer = (k s).0;
    accepted = (k s).1;
    taken = (k s).2;
    sees = sees_go;
  }

  put-Kept : (v : T) (l : Line) (q : Queue T) → Kept q (put_line v l q)
  unfolding put_line
  put-Kept v want_token q =
      acquire-Kept q _ _ _ _ (λ _. (refl, refl, refl)) (blind q _ refl refl) (blind q _ refl refl)
  put-Kept v want_mutex q =
      acquire-Kept q _ _ _ _ (λ _. (refl, refl, refl)) (blind q _ refl refl) (blind q _ refl refl)
  put-Kept v at_buffer q =
      same-Kept q _ _
        (record { back = λ b e. ground (arith, e); front = λ x e. absurd (ground (arith, e)) })
  put-Kept v token_asleep q = same-Kept q _ _ (blind q _ refl refl)
  put-Kept v mutex_asleep q = same-Kept q _ _ (blind q _ refl refl)
  put-Kept v leave_mutex q = record {
    buffer = refl;
    accepted = refl;
    taken = refl;
    sees = blind q _ refl refl;
  }
  put-Kept v give_token q = record {
    buffer = refl;
    accepted = refl;
    taken = refl;
    sees = blind q _ refl refl;
  }

  front-Kept : (b : List T) (q : Queue T) → b ≡ q.buffer → Kept q (take_front b q)
  unfolding take_front
  front-Kept [] q e = same-Kept q _ _ (blind q _ refl refl)
  front-Kept (x ∷ rest) q e =
      same-Kept q _ _
        (record { back = λ b z. absurd (ground (arith, z)); front = λ v z. sym (ap head_of e) ∙ z })

  take-Kept : (l : Line) (q : Queue T) → Kept q (take_line l q)
  unfolding take_line
  take-Kept want_token q =
      acquire-Kept q _ _ _ _ (λ _. (refl, refl, refl)) (blind q _ refl refl) (blind q _ refl refl)
  take-Kept want_mutex q =
      acquire-Kept q _ _ _ _ (λ _. (refl, refl, refl)) (blind q _ refl refl) (blind q _ refl refl)
  take-Kept at_buffer q = front-Kept q.buffer q refl
  take-Kept token_asleep q = same-Kept q _ _ (blind q _ refl refl)
  take-Kept mutex_asleep q = same-Kept q _ _ (blind q _ refl refl)
  take-Kept leave_mutex q = record {
    buffer = refl;
    accepted = refl;
    taken = refl;
    sees = blind q _ refl refl;
  }
  take-Kept give_token q = record {
    buffer = refl;
    accepted = refl;
    taken = refl;
    sees = blind q _ refl refl;
  }

  -- What was pushed is what was popped and, behind it, the buffer.
  abbrev pub InOrder : Queue T → Type 0
  InOrder q = q.accepted ≡ q.taken ++ q.buffer

  push-InOrder :
      (v : T) (q : Queue T) → InOrder q → q.accepted ++ (v ∷ []) ≡ q.taken ++ (q.buffer ++ (v ∷ []))
  push-InOrder v q h =
      ap (λ (xs : List T). xs ++ (v ∷ [])) h ∙ append_assoc q.taken q.buffer (v ∷ [])

  -- A step of a thread that has seen the buffer as it is: the order stays, the buffer too unless the
  -- thread is at it, and what the thread sees then is true.
  pub record Steps (q : Queue T) (p : Pc T) (r : Queue T × Pc T × Notify) : Type 0 where
    pub order : InOrder r.0
    pub own : Sees r.0 r.1
    pub others : in_mutex p ≡ 0 → r.0.buffer ≡ q.buffer

  Kept-Steps :
      (q : Queue T) (p : Pc T) (r : Queue T × Pc T × Notify) → InOrder q → Kept q r → Steps q p r
  Kept-Steps q p r h k = record {
    order =
        k.accepted
        ∙ h
        ∙ ap (λ (b : List T). q.taken ++ b) (sym k.buffer)
        ∙ ap (λ (t : List T). t ++ r.0.buffer) (sym k.taken);
    own = record {
      back = λ b e. k.sees.back b e ∙ sym k.buffer;
      front = λ v e. ap head_of k.buffer ∙ k.sees.front v e;
    };
    others = λ _. k.buffer;
  }

  pop-Steps :
      (q : Queue T) (v : T) (b : List T)
      → q.buffer ≡ b
      → InOrder q
      → Sees q (popping v)
      → Steps q (popping v) (pop_front v b q)
  unfolding pop_front
  pop-Steps q v [] e h sees = record { order = h; own = sees; others = λ _. refl }
  pop-Steps q v (x ∷ rest) e h sees =
      let same : some x ≡ some v = sym (ap head_of e) ∙ sees.front v refl in
      let same_head : x ≡ v = ground (arith, same) in
      record {
        order =
            h
            ∙ ap (λ (b : List T). q.taken ++ b) (e ∙ ap (λ (y : T). y ∷ rest) same_head)
            ∙ sym (append_assoc q.taken (v ∷ []) rest);
        own = blind _ _ refl refl;
        others = λ z. absurd (ground (arith, z));
      }

  pub act-Steps :
      (c : Call T) (q : Queue T) (p : Pc T) → InOrder q → Sees q p → Steps q p (act c q p)
  unfolding act write_back
  act-Steps (call_put v) q outside h sees = Kept-Steps q outside _ h (put-Kept v want_token q)
  act-Steps call_take q outside h sees = Kept-Steps q outside _ h (take-Kept want_token q)
  act-Steps c q (putting v l) h sees = Kept-Steps q (putting v l) _ h (put-Kept v l q)
  act-Steps c q (taking l) h sees = Kept-Steps q (taking l) _ h (take-Kept l q)
  act-Steps c q (popping v) h sees = pop-Steps q v q.buffer refl h sees
  act-Steps c q (pushing v b) h sees = record {
    order =
        push-InOrder v q h
        ∙ ap (λ (x : List T). q.taken ++ (x ++ (v ∷ []))) (sym (sees.back b refl));
    own = blind _ _ refl refl;
    others = λ z. absurd (ground (arith, z));
  }

  -- Who is not at the buffer when it changes has seen nothing of it.
  pub wake-Sees :
      (q q' : Queue T) (s : Notify) (p : Pc T)
      → ((in_mutex p ≡ 1) → q'.buffer ≡ q.buffer)
      → Sees q p
      → Sees q' (wake s p)
  wake-Sees q q' s p keep sees =
      let back_kept : back_of (wake s p) ≡ back_of p = ground arith in
      let front_kept : front_of (wake s p) ≡ front_of p = ground arith in
      record {
        back =
            λ b e. let e' = sym back_kept ∙ e in sees.back b e' ∙ sym (keep (back-in_mutex p b e'));
        front = λ v e.
            let e' = sym front_kept ∙ e in
            ap head_of (keep (front-in_mutex p v e')) ∙ sees.front v e';
      }
    where
      back-in_mutex : (p : Pc T) (b : List T) → back_of p ≡ some b → in_mutex p ≡ 1
      back-in_mutex p b e = ground (arith, e)

      front-in_mutex : (p : Pc T) (v : T) → front_of p ≡ some v → in_mutex p ≡ 1
      front-in_mutex p v e = ground (arith, e)
