-- ===== src/Mutex/Guarding.antt =====
-- The guarded queue of a worker: one thread at a time is inside, the calls take effect one after the
-- other, no connection is lost, and every thread can get its turn.
use native.Mathlib.Decide.{ℕ_discrete}
use yeyj_tcp_server.Base.{
  ℕ, ◌≡◌, ◌≢◌, ◌⊎◌, refl, sym, ap, ◌∙◌, none, some, List, [], ◌∷◌, ◌++◌, Option-cases, inl, inr,
  append_assoc, append-nil,
}
use yeyj_tcp_server.Mutex.{
  PthreadMutex, Operation, push, swap, left_by, given_by, Point, outside, inside, has_read,
  finished, MutexLock, new_mutex_lock, lock, unlock, Shared, Step, enters, reads, writes, leaves,
  Reached, first, next, run_calls,
}
use yeyj_tcp_server.Worker.Pool.{put_at_self}
use yeyj_tcp_server.Worker.Tending.{put_at_other}
use yeyj_tcp_server.Worker.{Pointer, put_at}

run_calls-append :
    (ops : List Operation) (op : Operation) (st : List Pointer × List Pointer)
    → run_calls (ops ++ op ∷ []) st
      ≡ (left_by op (run_calls ops st).0, (run_calls ops st).1 ++ given_by op (run_calls ops st).0)
unfolding run_calls
run_calls-append [] op (queue, out) = refl
run_calls-append (o ∷ ops) op (queue, out) =
    run_calls-append ops op (left_by o queue, out ++ given_by o queue)

-- The connections that were pushed, in their order.
abbrev pub pushed : List Operation → List Pointer
pushed [] = []
pushed (push p ∷ ops) = p ∷ pushed ops
pushed (swap ∷ ops) = pushed ops

run_calls-pushed :
    (ops : List Operation) (queue out : List Pointer)
    → (run_calls ops (queue, out)).1 ++ (run_calls ops (queue, out)).0
      ≡ out ++ (queue ++ pushed ops)
unfolding run_calls left_by given_by
run_calls-pushed [] queue out = rw append-nil
run_calls-pushed (push p ∷ ops) queue out =
    run_calls-pushed ops (queue ++ p ∷ []) (out ++ [])
    ∙ rw (append-nil, append_assoc queue (p ∷ []) (pushed ops))
run_calls-pushed (swap ∷ ops) queue out =
    run_calls-pushed ops [] (out ++ queue) ∙ append_assoc out queue (pushed ops)

module _ (system : PthreadMutex) where
  open system use {
    M, initial, acquire, release, owner, initially_free, needs_free, can_acquire, frees,
  }

  -- What holds after every step.
  pub record IsGuarded (s : Shared system) : Type 0 where
    -- a thread that is not outside owns the mutex
    pub owns : (t : ℕ) → s.points t ≢ outside → owner s.guard.mutex ≡ some t
    -- the mutex is free, or a thread owns it that is not outside
    pub owned : (owner s.guard.mutex ≡ none) ⊎ ((t : ℕ) × (s.points t ≢ outside))
    -- what a thread has read is still the queue
    pub current :
        (t : ℕ) (op : Operation) (queue : List Pointer)
        → s.points t ≡ has_read op queue
        → queue ≡ s.queue
    -- the calls took effect one after the other
    pub serial : run_calls s.done ([], []) ≡ (s.queue, s.taken)

  lock_takes :
      (t : ℕ) (l l' : MutexLock system)
      → lock system t l ≡ some l'
      → (owner l.mutex ≡ none) × (owner l'.mutex ≡ some t)
  unfolding lock
  lock_takes t l l' h = elim (Option-cases (acquire t l.mutex)) [
    | inl waits ↦ absurd (cc (rw (lock, waits) at h))
    | inr (m, got) ↦
        let e : some (record l { mutex = m }) ≡ some l' = rw (lock, got) at h in
        let same : record l { mutex = m } ≡ l' = cc e in
        let (was_free, taken) = needs_free t l.mutex m got in
        (was_free, ap (λ (x : MutexLock system). owner x.mutex) (sym same) ∙ taken)
  ]

  -- Moving one thread to a point.
  pub moved_here : (t : ℕ) (p : Point) (f : ℕ → Point) → put_at t p f t ≡ p
  moved_here t p f = put_at_self t p f

  moved_other : (t u : ℕ) (p q : Point) (f : ℕ → Point) → u ≢ t → put_at t p f u ≡ q → f u ≡ q
  moved_other t u p q f ne h = sym (put_at_other t p f u ne) ∙ h

  module _ (s : Shared system) (g : IsGuarded s) where
    -- Only one thread is not outside.
    only : (t u : ℕ) → s.points t ≢ outside → s.points u ≢ outside → t ≡ u
    only t u h k = let e : some t ≡ some u = sym (g.owns t h) ∙ g.owns u k in cc e

    owns_after :
        (t : ℕ) (p : Point)
        → s.points t ≢ outside
        → (u : ℕ) → put_at t p s.points u ≢ outside
        → owner s.guard.mutex ≡ some u
    owns_after t p h u k = elim (ℕ_discrete u t) [
      | yes same ↦ g.owns t h ∙ ap (λ x. some x) (sym same)
      | no ne ↦ g.owns u (λ e. k (put_at_other t p s.points u ne ∙ e))
    ]

    enters-IsGuarded :
        (t : ℕ) (op : Operation) (l : MutexLock system)
        → s.points t ≡ outside
        → lock system t s.guard ≡ some l
        → IsGuarded (record s { guard = l; points = put_at t (inside op) s.points })
    enters-IsGuarded t op l out got =
        let (was_free, taken) = lock_takes t s.guard l got in
        record {
          owns = λ u k. elim (ℕ_discrete u t) [
            | yes same ↦ taken ∙ ap (λ x. some x) (sym same)
            | no ne ↦
                let mine = g.owns u (λ e. k (put_at_other t (inside op) s.points u ne ∙ e)) in
                absurd (cc (mine, was_free))
          ];
          owned = inr (t, λ e. absurd (cc (e, moved_here t (inside op) s.points)));
          current = λ u o queue h. elim (ℕ_discrete u t) [
            | yes same ↦
                absurd (
                  cc
                    (h, ap (put_at t (inside op) s.points) same, moved_here t (inside op) s.points))
            | no ne ↦
                g.current u o queue (moved_other t u (inside op) (has_read o queue) s.points ne h)
          ];
          serial = g.serial;
        }

    pub reads-IsGuarded :
        (t : ℕ) (op : Operation)
        → s.points t ≡ inside op
        → IsGuarded (record s { points = put_at t (has_read op s.queue) s.points })
    reads-IsGuarded t op at_t =
        let p = has_read op s.queue in
        record {
          owns = owns_after t p (λ e. absurd (cc (e, at_t)));
          owned = inr (t, λ e. absurd (cc (e, moved_here t p s.points)));
          current = λ u o queue h. elim (ℕ_discrete u t) [
            | yes same ↦
                let e : has_read o queue ≡ p =
                  sym h ∙ ap (put_at t p s.points) same ∙ moved_here t p s.points in
                cc e
            | no ne ↦ g.current u o queue (moved_other t u p (has_read o queue) s.points ne h)
          ];
          serial = g.serial;
        }

    pub writes-IsGuarded :
        (t : ℕ) (op : Operation) (queue : List Pointer)
        → s.points t ≡ has_read op queue
        → IsGuarded (record s {
          queue = left_by op queue;
          taken = s.taken ++ given_by op queue;
          done = s.done ++ op ∷ [];
          points = put_at t finished s.points;
        })
    writes-IsGuarded t op queue at_t =
        let mine : s.points t ≢ outside = λ e. absurd (cc (e, at_t)) in
        let same_queue = g.current t op queue at_t in
        record {
          owns = owns_after t finished mine;
          owned = inr (t, λ e. absurd (cc (e, moved_here t finished s.points)));
          current = λ u o q h. elim (ℕ_discrete u t) [
            | yes same ↦
                absurd
                  (cc (h, ap (put_at t finished s.points) same, moved_here t finished s.points))
            | no ne ↦
                let at_u = moved_other t u finished (has_read o q) s.points ne h in
                absurd (ne (only u t (λ e. absurd (cc (e, at_u))) mine))
          ];
          serial =
              run_calls-append s.done op ([], [])
              ∙ ap (λ st. (left_by op st.0, st.1 ++ given_by op st.0)) g.serial
              ∙ ap (λ q. (left_by op q, s.taken ++ given_by op q)) (sym same_queue);
        }

    pub leaves-IsGuarded :
        (t : ℕ)
        → s.points t ≡ finished
        → IsGuarded
            (record s { guard = unlock system t s.guard; points = put_at t outside s.points })
    unfolding unlock
    leaves-IsGuarded t at_t =
        let mine : s.points t ≢ outside = λ e. absurd (cc (e, at_t)) in
        record {
          owns = λ u k. elim (ℕ_discrete u t) [
            | yes same ↦
                absurd (k (ap (put_at t outside s.points) same ∙ moved_here t outside s.points))
            | no ne ↦
                absurd (ne (only u t (λ e. k (put_at_other t outside s.points u ne ∙ e)) mine))
          ];
          owned = inl (frees t s.guard.mutex (g.owns t mine));
          current = λ u o q h. elim (ℕ_discrete u t) [
            | yes same ↦
                absurd (cc (h, ap (put_at t outside s.points) same, moved_here t outside s.points))
            | no ne ↦ g.current u o q (moved_other t u outside (has_read o q) s.points ne h)
          ];
          serial = g.serial;
        }

  Step-IsGuarded : (s s' : Shared system) → IsGuarded s → Step system s s' → IsGuarded s'
  Step-IsGuarded _ _ g (enters t op s l out got) = enters-IsGuarded s g t op l out got
  Step-IsGuarded _ _ g (reads t op s at_t) = reads-IsGuarded s g t op at_t
  Step-IsGuarded _ _ g (writes t op queue s at_t) = writes-IsGuarded s g t op queue at_t
  Step-IsGuarded _ _ g (leaves t s at_t) = leaves-IsGuarded s g t at_t

  -- In every reachable state: a thread that is in one of the functions owns the mutex, so there is at
  -- most one; the queue and what was swapped out are what the calls give one after the other.
  pub Reached-IsGuarded : (s : Shared system) → Reached system s → IsGuarded s
  unfolding new_mutex_lock run_calls
  Reached-IsGuarded _ first = record {
    owns = λ t k. absurd (k refl);
    owned = inl initially_free;
    current = λ t op queue h. absurd (cc h);
    serial = refl;
  }
  Reached-IsGuarded _ (next s s' r step) = Step-IsGuarded s s' (Reached-IsGuarded s r) step

  -- In every reachable state, what was swapped out and then what is in the queue are the
  -- connections that were pushed, in the order of the calls: none is lost, and none comes twice.
  pub Reached-pushed : (s : Shared system) → Reached system s → s.taken ++ s.queue ≡ pushed s.done
  Reached-pushed s r =
      let serial = (Reached-IsGuarded s r).serial in
      ap (λ st. st.1 ++ st.0) (sym serial) ∙ run_calls-pushed s.done [] []
