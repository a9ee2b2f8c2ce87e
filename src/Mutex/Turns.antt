-- ===== src/Mutex/Turns.antt =====
-- The turns of the threads at the guarded queue of a worker.
use yeyj_tcp_server.Base.{ℕ, ◌≡◌, ◌⊎◌, refl, none, List, [], ◌∷◌, ◌++◌, inl, inr}
use yeyj_tcp_server.Mutex.{
  PthreadMutex, Operation, left_by, given_by, Point, outside, inside, has_read, finished, lock,
  unlock, Shared, Step, enters, reads, writes, leaves, Reached,
}
use yeyj_tcp_server.Worker.{Pointer, put_at}
use yeyj_tcp_server.Mutex.Guarding.{
  IsGuarded, Reached-IsGuarded, moved_here, writes-IsGuarded, reads-IsGuarded, leaves-IsGuarded,
}

module _ (system : PthreadMutex) where
  open system use {
    M, initial, acquire, release, owner, initially_free, needs_free, can_acquire, frees,
  }

  -- Any number of steps.
  pub data Leads : Shared system → Shared system → Type 0 where
    here : (s : Shared system) → Leads s s
    then : (s s₁ s' : Shared system) → Step system s s₁ → Leads s₁ s' → Leads s s'

  Leads-Step : (s s₁ s' : Shared system) → Leads s s₁ → Step system s₁ s' → Leads s s'
  Leads-Step _ _ s' (here s) step = then s s' s' step (here s')
  Leads-Step _ _ s' (then s s₀ s₁ first_step rest) step =
      then s s₀ s' first_step (Leads-Step s₀ s₁ s' rest step)

  point_cases :
      (p : Point)
      → (p ≡ outside)
        ⊎ (((op : Operation) × (p ≡ inside op))
            ⊎ (((op : Operation) × (queue : List Pointer) × (p ≡ has_read op queue))
                ⊎ (p ≡ finished)))
  point_cases outside = inl refl
  point_cases (inside op) = inr (inl (op, refl))
  point_cases (has_read op queue) = inr (inr (inl (op, queue, refl)))
  point_cases finished = inr (inr (inr refl))

  -- A state to which some steps lead in which no thread has the mutex.
  abbrev Freed : Shared system → Type 0
  Freed s = (s' : Shared system) × Leads s s' × IsGuarded system s' × (owner s'.guard.mutex ≡ none)

  free_finished : (u : ℕ) (s : Shared system) → IsGuarded system s → s.points u ≡ finished → Freed s
  unfolding unlock
  free_finished u s g at_u =
      let s' = record s { guard = unlock system u s.guard; points = put_at u outside s.points } in
      (
        s',
        then s s' s' (leaves u s at_u) (here s'),
        leaves-IsGuarded system s g u at_u,
        frees u s.guard.mutex (g.owns u (λ e. absurd (cc (e, at_u)))),
      )

  free_read :
      (u : ℕ) (op : Operation) (queue : List Pointer) (s : Shared system)
      → IsGuarded system s
      → s.points u ≡ has_read op queue
      → Freed s
  free_read u op queue s g at_u =
      let s₁ = record s {
        queue = left_by op queue;
        taken = s.taken ++ given_by op queue;
        done = s.done ++ op ∷ [];
        points = put_at u finished s.points;
      } in
      let (s', rest, g', free) =
        free_finished u s₁ (writes-IsGuarded system s g u op queue at_u)
          (moved_here system u finished s.points) in
      (s', then s s₁ s' (writes u op queue s at_u) rest, g', free)

  free_inside :
      (u : ℕ) (op : Operation) (s : Shared system)
      → IsGuarded system s
      → s.points u ≡ inside op
      → Freed s
  free_inside u op s g at_u =
      let s₁ = record s { points = put_at u (has_read op s.queue) s.points } in
      let (s', rest, g', free) =
        free_read u op s.queue s₁ (reads-IsGuarded system s g u op at_u)
          (moved_here system u (has_read op s.queue) s.points) in
      (s', then s s₁ s' (reads u op s at_u) rest, g', free)

  -- A thread that has the mutex gives it back.
  freed : (s : Shared system) → IsGuarded system s → Freed s
  freed s g = elim g.owned [
    | inl idle ↦ (s, here s, g, idle)
    | inr (u, busy) ↦ elim (point_cases (s.points u)) [
      | inl out ↦ absurd (busy out)
      | inr (inl (op, at_u)) ↦ free_inside u op s g at_u
      | inr (inr (inl (op, queue, at_u))) ↦ free_read u op queue s g at_u
      | inr (inr (inr at_u)) ↦ free_finished u s g at_u
    ]
  ]

  -- While no thread has the mutex, all are outside.
  is_outside :
      (t : ℕ) (s : Shared system)
      → IsGuarded system s
      → owner s.guard.mutex ≡ none
      → s.points t ≡ outside
  is_outside t s g idle = elim (point_cases (s.points t)) [
    | inl out ↦ out
    | inr (inl (o, at_t)) ↦ absurd (cc (g.owns t (λ e. absurd (cc (e, at_t))), idle))
    | inr (inr (inl (o, queue, at_t))) ↦ absurd (cc (g.owns t (λ e. absurd (cc (e, at_t))), idle))
    | inr (inr (inr at_t)) ↦ absurd (cc (g.owns t (λ e. absurd (cc (e, at_t))), idle))
  ]

  -- From every reachable state some steps lead to one in which a given thread has begun a given call:
  -- the threads cannot come to wait for each other for good.
  pub Reached-begins :
      (t : ℕ) (op : Operation) (s : Shared system)
      → Reached system s
      → (s' : Shared system) × Leads s s' × (s'.points t ≡ inside op)
  unfolding lock
  Reached-begins t op s r =
      let (s₁, steps, g, idle) = freed s (Reached-IsGuarded system s r) in
      let (m, got) = can_acquire t s₁.guard.mutex idle in
      let l = record (s₁.guard) { mutex = m } in
      let s₂ = record s₁ { guard = l; points = put_at t (inside op) s₁.points } in
      (
        s₂,
        Leads-Step s s₁ s₂ steps (enters t op s₁ l (is_outside t s₁ g idle) (rw (lock, got))),
        moved_here system t (inside op) s₁.points,
      )
