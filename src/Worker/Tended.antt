-- ===== src/Worker/Tended.antt =====
-- What stays true of a worker between its rounds, while the acceptor fills its queue.
use mathlib.Core.List.{map}
use mathlib.Core.Path.{subst}
use yeyj_tcp_server.Base.{
  ℕ, ◌+◌, ◌*◌, ◌≤◌, ◌≡◌, ◌≢◌, refl, sym, ap, ◌∙◌, arith, none, some, List, [], ◌∷◌, ◌++◌, length,
  length-append,
}
use yeyj_tcp_server.Connection.{Connection}
use yeyj_tcp_server.HashTable.Chains.{Key}
use yeyj_tcp_server.HashTable.Table.{most_buckets, new}
use yeyj_tcp_server.HashTable.Valid.{view}
use yeyj_tcp_server.Worker.Leaving.{Evicts}
use yeyj_tcp_server.Worker.Pool.{put_at_self}
use yeyj_tcp_server.Worker.Service.{IsKept, Leaves-IsKept}
use yeyj_tcp_server.Worker.Tending.{put_at_other}
use yeyj_tcp_server.Worker.Welcoming.{Each}
use yeyj_tcp_server.Worker.{Worker, Pointer, put_at, register_new_connection}

-- The address is not one of these pointers.
abbrev NotAmong : ℕ → List Pointer → Type 0
NotAmong a [] = Unit {0}
NotAmong a (p ∷ ps) = (p ≢ some a) × NotAmong a ps

map-append_last :
    (ps : List ℕ) (a : ℕ) → map {B = Pointer} some (ps ++ a ∷ []) ≡ map some ps ++ some a ∷ []
map-append_last [] a = refl
map-append_last (p ∷ ps) a = ap (λ rest. some p ∷ rest) (map-append_last ps a)

module _ ⦃key : Key ℕ⦄ {S : Type 0} (P : Connection → Type 0) where
  -- The pool of the worker is kept, each pointer of its queue is to a connection with `P` that is not
  -- in the pool, and together they are at most 2^30 long.
  pub record IsTended (w : Worker S) : Type 0 where
    pub pool : IsKept P w
    pub queue : List ℕ
    pub queued : w.incoming ≡ map some queue
    pub waiting : Each (λ a. P (w.objects a) × (view w.pool (w.objects a).id ≡ none)) queue
    pub room : (w.pool.ht0.used + w.pool.ht1.used + length w.incoming) * 2 ≤ most_buckets

  pub Evicts-IsKept :
      (Due : Connection → Type 0) (w w' : Worker S) → IsKept P w → Evicts Due w w' → IsKept P w'
  Evicts-IsKept Due w w' good e = Leaves-IsKept P e.gone e.who w w' good e.same_objects e.leaves

  -- With nothing in the queue.
  pub IsKept-IsTended :
      (w : Worker S)
      → IsKept P w
      → w.incoming ≡ []
      → (w.pool.ht0.used + w.pool.ht1.used) * 2 ≤ most_buckets
      → IsTended w
  IsKept-IsTended w good quiet small = record {
    pool = good;
    queue = [];
    queued = quiet;
    waiting = tt;
    room = (let nothing = ap length quiet in omega arith);
  }

  -- The address is not in use.
  abbrev pub IsUnused : ℕ → Worker S → Type 0
  IsUnused a w = ((k : ℕ) → view w.pool k ≢ some (some a)) × NotAmong a w.incoming

  still_waiting :
      (a : ℕ) (c : Connection) (w : Worker S) (ps : List ℕ)
      → NotAmong a (map some ps)
      → Each (λ b. P (w.objects b) × (view w.pool (w.objects b).id ≡ none)) ps
      → P c
      → view w.pool c.id ≡ none
      → Each
          (λ b. P (put_at a c w.objects b) × (view w.pool (put_at a c w.objects b).id ≡ none))
          (ps ++ a ∷ [])
  still_waiting a c w [] apart all new missing =
      subst (λ (x : Connection). (P x × (view w.pool x.id ≡ none)) × Unit {0})
        (sym (put_at_self a c w.objects)) ((new, missing), tt)
  still_waiting a c w (b ∷ ps) (ne, apart) (old, all) new missing =
      let same = put_at_other a c w.objects b (λ h. ne (ap (λ x. some x) h)) in
      (
        subst (λ (x : Connection). P x × (view w.pool x.id ≡ none)) (sym same) old,
        still_waiting a c w ps apart all new missing,
      )

  -- `newConnection` hands a tended worker a connection that satisfies `P`, at an address that is not
  -- in use, with a number that is not in the pool: it stays tended.
  pub register_new_connection-IsTended :
      (a : ℕ) (c : Connection) (w : Worker S)
      → IsTended w
      → P c
      → IsUnused a w
      → view w.pool c.id ≡ none
      → (w.pool.ht0.used + w.pool.ht1.used + length w.incoming + 1) * 2 ≤ most_buckets
      → IsTended (register_new_connection (some a) (record w { objects = put_at a c w.objects }))
  unfolding register_new_connection
  register_new_connection-IsTended a c w t new (not_held, not_queued) missing small = record {
    pool = record {
      valid = t.pool.valid;
      free = t.pool.free;
      kept = λ k p there.
          (let (x, is_x, named, holds) = t.pool.kept k p there in
            let ne : x ≢ a =
              λ h. not_held k (there ∙ ap (λ q. some q) (is_x ∙ ap (λ y. some y) h)) in
            let same = put_at_other a c w.objects x ne in
            (x, is_x, ap (λ (z : Connection). z.id) same ∙ named, subst P (sym same) holds));
    };
    queue = t.queue ++ a ∷ [];
    queued = ap (λ ps. ps ++ some a ∷ []) t.queued ∙ sym (map-append_last t.queue a);
    waiting =
        still_waiting a c w t.queue (subst (NotAmong a) t.queued not_queued) t.waiting new missing;
    room = rw (length-append w.incoming (some a ∷ [])) (omega arith);
  }
