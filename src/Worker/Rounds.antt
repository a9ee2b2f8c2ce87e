-- ===== src/Worker/Rounds.antt =====
-- The loop of `workFunction` as a whole, with the queue that the acceptor fills between its rounds,
-- where the callbacks fill the interface `Service`.
use mathlib.Core.Path.{subst}
use yeyj_tcp_server.Base.{
  as_int, as_int-pos, zero, suc, ℕ, ◌+◌, ◌*◌, ◌≤◌, ◌<◌, ◌≡◌, refl, sym, ap, ◌∙◌, arith, Bool, true,
  false, ◌||◌, none, some, List, [], Bool-cases, inl, inr, ok, length, length-map, if◌then◌else◌,
  Safe, bind-Safe, Safe-map, Returns, Safe-returns, ℤ, take, pos,
}
use yeyj_tcp_server.Connection.{Connection, Callbacks, Socket}
use yeyj_tcp_server.HashTable.Chains.{Key}
use yeyj_tcp_server.HashTable.Table.{Dict, most_buckets, size, new}
use yeyj_tcp_server.HashTable.Steps.{new-IsValid, view-new}
use yeyj_tcp_server.HashTable.Valid.{view, IsValid}
use yeyj_tcp_server.Server.Config.{max_tcp_none, max_tcp_random, inactive_none}
use yeyj_tcp_server.Worker.Leaving.{IsDue}
use yeyj_tcp_server.Worker.Culling.{manage_inactive_connection-Evicts, eviction-Evicts}
use yeyj_tcp_server.Worker.Service.{Service, IsKept}
use yeyj_tcp_server.Worker.Tending.{AreReported, handle_events-IsKept}
use yeyj_tcp_server.Worker.Welcoming.{Each-map, register_incoming-Grown}
use yeyj_tcp_server.Worker.{
  handle_events, register_incoming, Worker, Event, Master, Pointer, above, above_int, put_at,
  register_new_connection, manage_inactive_connection, eviction, work_round,
}
use yeyj_tcp_server.Worker.Tended.{
  IsTended, IsUnused, IsKept-IsTended, Evicts-IsKept, register_new_connection-IsTended,
}

-- The server never evicts at random from a worker that may have no connection: with that rule, it
-- is not over its memory limit, and the limit of connections per worker is not below zero.
abbrev pub MayEvict : Master → Type 0
MayEvict m =
    m.max_tcp_eviction_rule ≡ some max_tcp_random
    → (m.exceed_max_memory ≡ false) × ((n : ℕ) × (m.max_tcp_per_worker ≡ pos n))

over_limit :
    (n k : ℕ) (z : ℤ) (b : Bool)
    → (above_int (as_int n) z || b) ≡ true
    → b ≡ false
    → z ≡ pos k
    → 0 < n
unfolding above_int above
over_limit zero k z b h off e =
    let nought = as_int-pos 0 (omega arith) in
    let h' : above_int (pos 0) (pos k) ≡ true =
      alone (above_int (pos 0) (pos k)) b (rw (nought, e) at h) off in
    absurd (ground (arith, h'))
  where
    alone : (x y : Bool) → (x || y) ≡ true → y ≡ false → x ≡ true
    alone true y h off = refl
    alone false y h off = absurd (cc (h, off))
over_limit (suc n) k z b h off e = omega arith

-- The server evicts no connection.
abbrev pub NeverEvicts : Master → Type 0
NeverEvicts m =
    (m.inactive_tcp_eviction_rule ≡ some inactive_none)
    × (m.max_tcp_eviction_rule ≡ some max_tcp_none)

calm_inactive :
    ⦃key : Key ℕ⦄ {S : Type 0} (m : Master) (draws : ℕ → List ℕ) (now : ℕ) (w : Worker S)
    → m.inactive_tcp_eviction_rule ≡ some inactive_none
    → manage_inactive_connection m draws now w ≡ ok w
unfolding manage_inactive_connection
calm_inactive m draws now w inactive = rw inactive

calm_eviction :
    ⦃key : Key ℕ⦄ {S : Type 0} (m : Master) (draws : ℕ → List ℕ) (now : ℕ) (w : Worker S)
    → m.max_tcp_eviction_rule ≡ some max_tcp_none
    → eviction m draws now w ≡ ok w
unfolding eviction
calm_eviction m draws now w over = rw over

module _ ⦃key : Key ℕ⦄ (net : Socket) (user : Callbacks) (P : Connection → Type 0)
    (service : Service net user P) where
  open net use {S}

  -- The events are handled and the queue is registered; the pool is kept then.
  prepared :
      (bound : ℕ) (es : List (ℕ × Event)) (w : Worker S)
      → IsTended P w
      → AreReported w.pool (take bound es)
      → Returns (handle_events net user (take bound es) w) (λ w₁.
        Returns (register_incoming user w₁) (λ w₂.
          IsKept P w₂
          × (w₂.incoming ≡ [])
          × ((w₂.pool.ht0.used + w₂.pool.ht1.used) * 2 ≤ most_buckets)))
  prepared bound es w t reported =
      let (w₁, handled, (good₁, spares)) =
        handle_events-IsKept net user P service (take bound es) w t.pool (omega (arith, t.room))
          reported in
      let all =
        Each-map (λ a. P (w.objects a) × (view w.pool (w.objects a).id ≡ none))
          (λ a. P (w₁.objects a)) t.queue
          (λ a (holds, missing). subst P (sym (spares.others a missing)) holds) t.waiting in
      let counts : length w.incoming ≡ length t.queue =
        ap length t.queued ∙ length-map t.queue some in
      let (w₂, registered, g) =
        register_incoming-Grown net user P service t.queue w₁ (spares.same_queue ∙ t.queued) good₁
          all (omega (arith, t.room, spares.no_more)) in
      (
        w₁,
        handled,
        (w₂, registered, (g.kept, g.same_queue, omega (arith, g.at_most, t.room, spares.no_more))),
      )

  -- Where the worker is tended, its bound is set, `epoll_wait` reports numbers of the pool, each once,
  -- and the server may evict, a round of the worker returns, unless the results of `random()` are used
  -- up; the worker is tended then, with an empty queue.
  pub work_round-IsTended :
      (m : Master) (draws draws' : ℕ → List ℕ) (now bound : ℕ) (es : List (ℕ × Event))
      (w : Worker S)
      → IsTended P w
      → w.max_connection ≡ some bound
      → AreReported w.pool (take bound es)
      → MayEvict m
      → Safe
          (work_round net user m draws draws' now es w)
          (λ w'. IsTended P w' × (w'.incoming ≡ []))
  unfolding work_round
  work_round-IsTended m draws draws' now bound es w t has_bound reported may =
      let (w₁, handled, (w₂, registered, (good, quiet, small))) = prepared bound es w t reported in
      rw (has_bound, handled, registered)
        (bind-Safe (manage_inactive_connection m draws now w₂) _
          (manage_inactive_connection-Evicts P service.is_open m draws now w₂ good small)
          (λ w₃ e.
            limited w₃ (Evicts-IsKept P (IsDue m false now) w₂ w₃ good e) (e.same_queue ∙ quiet)
              (omega (arith, e.leaves.no_more, small))))
    where
      limited :
          (w₃ : Worker S)
          → IsKept P w₃
          → w₃.incoming ≡ []
          → (w₃.pool.ht0.used + w₃.pool.ht1.used) * 2 ≤ most_buckets
          → Safe
              (if above_int (as_int (size w₃.pool)) m.max_tcp_per_worker || m.exceed_max_memory
                then eviction m draws' now w₃
                else ok w₃)
              (λ w'. IsTended P w' × (w'.incoming ≡ []))
      limited w₃ good quiet small =
          elim (Bool-cases
            (above_int (as_int (size w₃.pool)) m.max_tcp_per_worker || m.exceed_max_memory)) [
              | inr within ↦
                  rw within (inr (w₃, refl, (IsKept-IsTended P w₃ good quiet small, quiet)))
              | inl over ↦ rw over (
                  Safe-map
                    (eviction-Evicts P service.is_open m draws' now w₃ good small (λ random.
                      (let (off, (k, e)) = may random in
                        over_limit (size w₃.pool) k m.max_tcp_per_worker m.exceed_max_memory over
                          off e)))
                    (λ w' e. (
                      IsKept-IsTended P w' (Evicts-IsKept P (IsDue m true now) w₃ w' good e)
                          (e.same_queue ∙ quiet) (omega (arith, e.leaves.no_more)),
                      e.same_queue ∙ quiet,
                    )))
            ]

  -- Without evictions no random number is needed.
  calm_round :
      (m : Master) (draws draws' : ℕ → List ℕ) (now bound : ℕ) (es : List (ℕ × Event))
      (w : Worker S)
      → IsTended P w
      → w.max_connection ≡ some bound
      → AreReported w.pool (take bound es)
      → NeverEvicts m
      → (w' : Worker S) × (work_round net user m draws draws' now es w ≡ ok w')
  unfolding work_round
  calm_round m draws draws' now bound es w t has_bound reported (inactive, over) =
      let (w₁, handled, (w₂, registered, facts)) = prepared bound es w t reported in
      (w₂, goes_on w₁ w₂ handled registered)
    where
      either_way : (b : Bool) (w₂ : Worker S) → (if b then ok w₂ else ok w₂) ≡ ok w₂
      either_way true w₂ = refl
      either_way false w₂ = refl

      goes_on :
          (w₁ w₂ : Worker S)
          → handle_events net user (take bound es) w ≡ ok w₁
          → register_incoming user w₁ ≡ ok w₂
          → work_round net user m draws draws' now es w ≡ ok w₂
      goes_on w₁ w₂ handled registered =
          rw
            (
              has_bound,
              handled,
              registered,
              calm_inactive m draws now w₂ inactive,
              calm_eviction m draws' now w₂ over,
            )
            (either_way
              (above_int (as_int (size w₂.pool)) m.max_tcp_per_worker || m.exceed_max_memory) w₂)

  -- What a worker goes through: it starts without connections; between its rounds `newConnection`
  -- hands it new ones; and in a round the events that `epoll_wait` reports are handled.
  pub data Goes : Worker S → Type 0 where
    starts : (w : Worker S) → w.pool ≡ new → w.incoming ≡ [] → Goes w
    is_handed :
        (a : ℕ) (c : Connection) (w : Worker S)
        → Goes w
        → P c
        → IsUnused P a w
        → view w.pool c.id ≡ none
        → (w.pool.ht0.used + w.pool.ht1.used + length w.incoming + 1) * 2 ≤ most_buckets
        → Goes (register_new_connection (some a) (record w { objects = put_at a c w.objects }))
    works :
        (m : Master) (draws draws' : ℕ → List ℕ) (now bound : ℕ) (es : List (ℕ × Event))
        (w w' : Worker S)
        → Goes w
        → w.max_connection ≡ some bound
        → AreReported w.pool (take bound es)
        → MayEvict m
        → work_round net user m draws draws' now es w ≡ ok w'
        → Goes w'

  -- What holds after a round.
  abbrev pub After : Worker S → Type 0
  After w = Goes w × IsTended P w × (w.incoming ≡ [])

  pub Goes-IsTended : (w : Worker S) → Goes w → IsTended P w
  Goes-IsTended _ (starts w bare quiet) =
      IsKept-IsTended P w
        (record {
          valid = subst IsValid (sym bare) new-IsValid;
          free = ap (λ (d : Dict ℕ Pointer). d.iterators) bare ∙ (unfold new in refl);
          kept =
              λ k p there. absurd (cc (there, ap (λ d. view d k) bare, view-new {V = Pointer} k));
        })
        quiet (rw bare (unfold new in omega arith))
  Goes-IsTended _ (is_handed a c w₀ goes new_one unused missing small) =
      register_new_connection-IsTended P a c w₀ (Goes-IsTended w₀ goes) new_one unused missing small
  Goes-IsTended _ (works m draws draws' now bound es w₀ w goes has_bound reported may run) =
      elim (work_round-IsTended m draws draws' now bound es w₀ (Goes-IsTended w₀ goes) has_bound
        reported may) [
          | inl out ↦ absurd (cc (out, run))
          | inr (w', run', (t, quiet)) ↦
              let same : w' ≡ w = cc (run, run') in subst (λ x. IsTended P x) same t
        ]

  -- Whatever a worker has gone through, where its bound is set, the callbacks serve `P`, `epoll_wait`
  -- reports numbers of the pool, each once, and the server does not evict at random where it may have
  -- no connection, the next round returns, unless the results of `random()` are used up: no callback is
  -- empty, no null pointer is dereferenced and no `assert` fails; and the worker is tended then, with
  -- an empty queue.
  pub work_round-Goes :
      (m : Master) (draws draws' : ℕ → List ℕ) (now bound : ℕ) (es : List (ℕ × Event))
      (w : Worker S)
      → Goes w
      → w.max_connection ≡ some bound
      → AreReported w.pool (take bound es)
      → MayEvict m
      → Safe (work_round net user m draws draws' now es w) After
  work_round-Goes m draws draws' now bound es w goes has_bound reported may =
      elim (work_round-IsTended m draws draws' now bound es w (Goes-IsTended w goes) has_bound
        reported may) [
          | inl out ↦ inl out
          | inr (w', run, (t, quiet)) ↦ inr (
            w',
            run,
            (works m draws draws' now bound es w w' goes has_bound reported may run, t, quiet),
          )
        ]

  -- Whatever a worker has gone through, where its bound is set, the callbacks serve `P`, `epoll_wait`
  -- reports numbers of the pool, each once, and the server evicts no connection, the next round
  -- returns, and the worker is tended then, with an empty queue.
  pub calm_round-Goes :
      (m : Master) (draws draws' : ℕ → List ℕ) (now bound : ℕ) (es : List (ℕ × Event))
      (w : Worker S)
      → Goes w
      → w.max_connection ≡ some bound
      → AreReported w.pool (take bound es)
      → NeverEvicts m
      → Returns (work_round net user m draws draws' now es w) After
  calm_round-Goes m draws draws' now bound es w goes has_bound reported never =
      let may : MayEvict m = λ random. absurd (cc (random, never.1)) in
      let (w', run) =
        calm_round m draws draws' now bound es w (Goes-IsTended w goes) has_bound reported never in
      Safe-returns (work_round-Goes m draws draws' now bound es w goes has_bound reported may) run
