-- ===== src/Worker/Service.antt =====
-- What a worker asks of the callbacks, as an interface that a program on the server fills, and what
-- it keeps true of its pool in return.
use mathlib.Core.Path.{subst}
use yeyj_tcp_server.Base.{
  bind-returns, ℕ, ◌≡◌, ◌⊎◌, sym, ap, ◌∙◌, Bool, true, false, some, ok, Returns, if◌then◌else◌,
}
use yeyj_tcp_server.Connection.{
  Connection, Callbacks, Socket, invoke, on_readable_event, on_writable_event,
}
use yeyj_tcp_server.HashTable.Chains.{Key}
use yeyj_tcp_server.HashTable.Moves.{Keeps}
use yeyj_tcp_server.HashTable.Valid.{view, IsValid}
use yeyj_tcp_server.Worker.Names.{
  SameName, KeepsName, on_readable_event-SameName, on_writable_event-SameName,
}
use yeyj_tcp_server.Worker.Pool.{Leaves, Leaves-was}
use yeyj_tcp_server.Worker.Visiting.{visit}
use yeyj_tcp_server.Worker.{Worker, Event, Pointer}

-- The callbacks and the socket serve the connections that satisfy `P`: none of these is closed, a
-- new one is welcomed, and an event leaves one that is closed or satisfies `P`.
pub record Service (net : Socket) (user : Callbacks) (P : Connection → Type 0) : Type 0 where
  pub is_open : (c : Connection) → P c → c.closed ≡ false
  pub keeps : KeepsName user
  pub welcomes :
      (c : Connection) → P c → Returns (invoke user.on_connection c) (λ c'. SameName c c' × P c')
  pub visits :
      (now : ℕ) (e : Event) (c : Connection) (s : net.S)
      → P c
      → Returns (visit net user now e c s) (λ r. (r.0.closed ≡ true) ⊎ P r.0)

module _ (net : Socket) where
  open net use {S}

  -- An event keeps the number and the descriptor.
  pub visit-SameName :
      (user : Callbacks) (now : ℕ) (e : Event) (c c' : Connection) (s s' : S)
      → KeepsName user
      → visit net user now e c s ≡ ok (c', s')
      → SameName c c'
  visit-SameName user now e c c' s s' keeps h =
      let ((c₁, s₁), read, wrote) =
        bind-returns (if e.readable then on_readable_event net user now c s else ok (c, s))
          (λ r. if e.writable then on_writable_event net now r.0 r.1 else ok r) (c', s') h in
      let n = reading e.readable c₁ s₁ read in
      let m = writing e.writable c₁ s₁ wrote in (m.0 ∙ n.0, m.1 ∙ n.1)
    where
      same : (x y : Connection) → x ≡ y → SameName x y
      same x y h =
          (ap (λ (z : Connection). z.id) (sym h), ap (λ (z : Connection). z.connfd) (sym h))

      reading :
          (b : Bool) (d : Connection) (t : S)
          → (if b then on_readable_event net user now c s else ok (c, s)) ≡ ok (d, t)
          → SameName c d
      reading true d t h = on_readable_event-SameName net user now c d s t keeps h
      reading false d t h = same c d (cc h)

      writing :
          (b : Bool) (d : Connection) (t : S)
          → (if b then on_writable_event net now d t else ok (d, t)) ≡ ok (c', s')
          → SameName d c'
      writing true d t h = on_writable_event-SameName net now d c' t s' h
      writing false d t h = same d c' (cc h)

-- The pointer is to a connection of the number `k` that satisfies `P`.
abbrev pub IsOf : (Connection → Type 0) → (ℕ → Connection) → ℕ → Pointer → Type 0
IsOf P objects k p = (a : ℕ) × (p ≡ some a) × ((objects a).id ≡ k) × P (objects a)

module _ ⦃key : Key ℕ⦄ {S : Type 0} (P : Connection → Type 0) where
  -- The pool of the worker is valid, without iterators, and has under each number the connection
  -- that has it, which satisfies `P`.
  pub record IsKept (w : Worker S) : Type 0 where
    pub valid : IsValid w.pool
    pub free : w.pool.iterators ≡ 0
    pub kept : (k : ℕ) (p : Pointer) → view w.pool k ≡ some p → IsOf P w.objects k p

  -- The pool may change without a change of the map.
  pub Keeps-IsKept :
      (w w' : Worker S) → IsKept w → w'.objects ≡ w.objects → Keeps w.pool w'.pool → IsKept w'
  Keeps-IsKept w w' good same keep = record {
    valid = keep.valid;
    free = keep.same_iterators ∙ good.free;
    kept = λ k p there.
        subst (λ objects. IsOf P objects k p) (sym same)
          (good.kept k p (sym (keep.same_view k) ∙ there));
  }

  -- A number may leave the pool.
  pub Leaves-IsKept :
      (gone : Bool) (k : ℕ) (w w' : Worker S)
      → IsKept w
      → w'.objects ≡ w.objects
      → Leaves gone k w.pool w'.pool
      → IsKept w'
  Leaves-IsKept gone k w w' good same l = record {
    valid = l.valid;
    free = l.same_iterators ∙ good.free;
    kept = λ q p there.
        subst (λ objects. IsOf P objects q p) (sym same)
          (good.kept q p (Leaves-was gone k q p w.pool w'.pool l there).0);
  }
