-- ===== src/Worker/Tending.antt =====
-- The events of a round, where the callbacks fill the interface `Service`.
use mathlib.Core.Path.{subst}
use yeyj_tcp_server.Base.{
  ℕ, ◌+◌, ◌*◌, ◌≤◌, ◌≡◌, ◌≢◌, ◌⊎◌, refl, sym, ap, ◌∙◌, arith, Bool, true, false, ◌&&◌, ◌||◌, none,
  some, List, [], ◌∷◌, Bool-cases, inl, inr, Returns, ◌==◌ as nat_eq,
}
use yeyj_tcp_server.Connection.{Connection, Callbacks, Socket}
use yeyj_tcp_server.HashTable.Chains.{Key, ◌==◌, eq_of_equal, equal_refl}
use yeyj_tcp_server.HashTable.Table.{Dict, most_buckets}
use yeyj_tcp_server.HashTable.Valid.{view}
use yeyj_tcp_server.Worker.Handling.{handle_event-Leaves}
use yeyj_tcp_server.Worker.Pool.{Leaves, Leaves-was, Leaves-others, Leaves-none, put_at_self}
use yeyj_tcp_server.Worker.Service.{Service, IsOf, IsKept, visit-SameName}
use yeyj_tcp_server.Worker.{Worker, Event, Pointer, put_at, handle_event, handle_events}

pub put_at_other {ℓ} :
    {A : Type ℓ} (a : ℕ) (x : A) (f : ℕ → A) (b : ℕ) → b ≢ a → put_at a x f b ≡ f b
unfolding put_at
put_at_other a x f b ne = let apart : nat_eq b a ≡ false = ground arith in rw apart

-- None of the events is for the number `k`.
abbrev NoneFor : ℕ → List (ℕ × Event) → Type 0
NoneFor k [] = Unit {0}
NoneFor k ((now, e) ∷ es) = (e.id ≢ k) × NoneFor k es

module _ ⦃key : Key ℕ⦄ where
  -- What `epoll_wait` reports: each of the events is for a number in the pool, and no two are for
  -- the same.
  abbrev pub AreReported : Dict ℕ Pointer → List (ℕ × Event) → Type 0
  AreReported d [] = Unit {0}
  AreReported d ((now, e) ∷ es) =
      ((p : Pointer) × (view d e.id ≡ some p)) × NoneFor e.id es × AreReported d es

  unequal : {a b : ℕ} → a ≢ b → (a == b) ≡ false
  unequal {a} {b} ne = elim (Bool-cases (a == b)) [
    | inl same ↦ absurd (ne (eq_of_equal same))
    | inr apart ↦ apart
  ]

  later-AreReported :
      (k : ℕ) (gone : Bool) (d d' : Dict ℕ Pointer) (es : List (ℕ × Event))
      → NoneFor k es
      → Leaves gone k d d'
      → AreReported d es
      → AreReported d' es
  later-AreReported k gone d d' [] others l all = tt
  later-AreReported k gone d d' ((now, e) ∷ es) (ne, others) l ((p, there), distinct, all) = (
    (p, Leaves-others gone k e.id d d' l (unequal ne) ∙ there),
    distinct,
    later-AreReported k gone d d' es others l all,
  )

  module _ (net : Socket) (user : Callbacks) (P : Connection → Type 0)
      (service : Service net user P) where
    open net use {S}

    -- What handling events leaves alone: the queue, and what is in it and not in the pool.
    pub record Spares (w w' : Worker S) : Type 0 where
      pub no_more : w'.pool.ht0.used + w'.pool.ht1.used ≤ w.pool.ht0.used + w.pool.ht1.used
      pub same_queue : w'.incoming ≡ w.incoming
      pub still_missing : (k : ℕ) → view w.pool k ≡ none → view w'.pool k ≡ none
      pub others : (b : ℕ) → view w.pool (w.objects b).id ≡ none → w'.objects b ≡ w.objects b

    after_event :
        (w w' : Worker S) (a k : ℕ) (c : Connection) (b : Bool)
        → IsKept P w
        → (w.objects a).id ≡ k
        → c.id ≡ k
        → (c.closed ≡ true) ⊎ P c
        → w'.objects ≡ put_at a c w.objects
        → Leaves (b || c.closed) k w.pool w'.pool
        → IsKept P w'
    after_event w w' a k c b good named same_id left objects l = record {
      valid = l.valid;
      free = l.same_iterators ∙ good.free;
      kept = λ q p there. subst (λ f. IsOf P f q p) (sym objects) (kept_at q p there);
    }
      where
        other :
            (q : ℕ) (p : Pointer)
            → (q == k) ≡ false
            → IsOf P w.objects q p
            → IsOf P (put_at a c w.objects) q p
        other q p apart (x, is_x, named_x, holds) =
            let ne : x ≢ a = λ h. absurd (
              cc (
                apart,
                ap (λ n. n == k) (sym named_x ∙ ap (λ z. (w.objects z).id) h ∙ named)
                    ∙ equal_refl k,
              )) in
            let kept = put_at_other a c w.objects x ne in
            (x, is_x, ap (λ (z : Connection). z.id) kept ∙ named_x, subst P (sym kept) holds)

        here :
            (q : ℕ) (p : Pointer)
            → q ≡ k
            → view w.pool q ≡ some p
            → P c
            → IsOf P (put_at a c w.objects) q p
        here q p same there holds =
            let (x, is_x, named_x, was) = good.kept q p there in
            elim (Bool-cases (nat_eq x a)) [
              | inl yes_a ↦
                  let eq : x ≡ a = ground arith in
                  let now_c : put_at a c w.objects x ≡ c =
                    ap (put_at a c w.objects) eq ∙ put_at_self a c w.objects in
                  (
                    x,
                    is_x,
                    ap (λ (z : Connection). z.id) now_c ∙ same_id ∙ sym same,
                    subst P (sym now_c) holds,
                  )
              | inr not_a ↦
                  let kept = put_at_other a c w.objects x (λ h. ground arith) in
                  (x, is_x, ap (λ (z : Connection). z.id) kept ∙ named_x, subst P (sym kept) was)
            ]

        holds_of : (b x g : Bool) → (x ≡ true) ⊎ P c → g ≡ true → ((b || x) && g) ≡ false → P c
        holds_of b x g (inr holds) same stays = holds
        holds_of true x true (inl closed) same stays = absurd (cc stays)
        holds_of false true true (inl closed) same stays = absurd (cc stays)
        holds_of false false true (inl closed) same stays = absurd (cc closed)
        holds_of b x false (inl closed) same stays = absurd (cc same)

        kept_at :
            (q : ℕ) (p : Pointer) → view w'.pool q ≡ some p → IsOf P (put_at a c w.objects) q p
        kept_at q p there =
            let (was, stays) = Leaves-was (b || c.closed) k q p w.pool w'.pool l there in
            elim (Bool-cases (q == k)) [
              | inr apart ↦ other q p apart (good.kept q p was)
              | inl same ↦
                  here q p (eq_of_equal same) was (holds_of b c.closed (q == k) left same stays)
            ]

    -- An event for a number in the pool.
    tend_event :
        (now : ℕ) (e : Event) (w : Worker S) (p : Pointer)
        → IsKept P w
        → (w.pool.ht0.used + w.pool.ht1.used) * 2 ≤ most_buckets
        → view w.pool e.id ≡ some p
        → Returns
            (handle_event net user now e w)
            (λ w'. IsKept P w' × Spares w w' × ((gone : Bool) × Leaves gone e.id w.pool w'.pool))
    tend_event now e w p good small there =
        let (a, is_a, named, holds) = good.kept e.id p there in
        let ((c, s), visited, left) =
          service.visits now e (w.objects a) (w.sockets (w.objects a).connfd) holds in
        let n =
          visit-SameName net user now e (w.objects a) c (w.sockets (w.objects a).connfd) s
            service.keeps visited in
        let at_a : view w.pool e.id ≡ some (some a) = there ∙ ap (λ x. some x) is_a in
        let (w', run, (objects, sockets, queue, l)) =
          handle_event-Leaves net user now e a c s w good.valid small at_a named service.keeps
            visited in
        (
          w',
          run,
          (
            after_event w w' a e.id c (e.error || e.hangup) good named (n.0 ∙ named) left objects l,
            record {
              no_more = l.no_more;
              same_queue = queue;
              still_missing =
                  λ k. Leaves-none (e.error || e.hangup || c.closed) e.id k w.pool w'.pool l;
              others = λ b missing.
                  ap (λ f. f b) objects
                  ∙ put_at_other a c w.objects b (λ h. absurd (
                      cc (
                        missing,
                        ap (λ z. view w.pool (w.objects z).id) h ∙ ap (view w.pool) named ∙ at_a,
                      )));
            },
            (e.error || e.hangup || c.closed, l),
          ),
        )

    Spares-trans : (w w₁ w₂ : Worker S) → Spares w w₁ → Spares w₁ w₂ → Spares w w₂
    Spares-trans w w₁ w₂ a b = record {
      no_more = omega (arith, a.no_more, b.no_more);
      same_queue = b.same_queue ∙ a.same_queue;
      still_missing = λ k h. b.still_missing k (a.still_missing k h);
      others = λ n h.
          (let same = a.others n h in
            b.others n
              (ap (λ (c : Connection). view w₁.pool c.id) same ∙ a.still_missing (w.objects n).id h)
            ∙ same);
    }

    -- Where the callbacks serve `P` and the pool is kept and at most 2^30 long, the
    -- events that `epoll_wait` reports are all handled: no pointer is null, no callback is empty, and
    -- the pool is kept; nothing enters the pool, and no connection outside of it is touched.
    pub handle_events-IsKept :
        (es : List (ℕ × Event)) (w : Worker S)
        → IsKept P w
        → (w.pool.ht0.used + w.pool.ht1.used) * 2 ≤ most_buckets
        → AreReported w.pool es
        → Returns (handle_events net user es w) (λ w'. IsKept P w' × Spares w w')
    unfolding handle_events
    handle_events-IsKept [] w good small all = (
      w,
      refl,
      (
        good,
        record {
          no_more = omega arith;
          same_queue = refl;
          still_missing = λ k h. h;
          others = λ b h. refl;
        },
      ),
    )
    handle_events-IsKept ((now, e) ∷ es) w good small ((p, there), distinct, all) =
        let (w₁, run, (good₁, spares₁, (gone, l))) = tend_event now e w p good small there in
        let (w₂, rest, (good₂, spares₂)) =
          handle_events-IsKept es w₁ good₁ (omega (arith, spares₁.no_more))
            (later-AreReported e.id gone w.pool w₁.pool es distinct l all) in
        (w₂, rw run rest, (good₂, Spares-trans w w₁ w₂ spares₁ spares₂))
