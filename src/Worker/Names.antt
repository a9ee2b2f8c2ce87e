-- ===== src/Worker/Names.antt =====
-- The events of a socket keep the number and the descriptor of a connection, where the callbacks do.
use yeyj_tcp_server.Base.{
  bind-returns, ℕ, ◌+◌, ◌≡◌, refl, sym, ap, ◌∙◌, true, ◌==◌ as nat_eq, List, Bool-cases, inl, inr,
  ok, ◌>>=◌, length,
}
use yeyj_tcp_server.Buffer.{write, skip_head, copy, get_max_space}
use yeyj_tcp_server.Connection.{
  Connection, Callbacks, Socket, invoke, on_disconnection, on_received, on_sent, on_readable_event,
  on_writable_event, read_socket, write_socket,
}

-- The number and the descriptor stay.
abbrev pub SameName : Connection → Connection → Type 0
SameName c c' = (c'.id ≡ c.id) × (c'.connfd ≡ c.connfd)

-- The members are private and have no setter, so no callback changes them.
pub record KeepsName (user : Callbacks) : Type 0 where
  pub message : (c c' : Connection) → invoke user.on_message c ≡ ok c' → SameName c c'
  pub disconnection : (c c' : Connection) → invoke user.on_disconnection c ≡ ok c' → SameName c c'

on_disconnection-SameName :
    (user : Callbacks) (c c' : Connection)
    → KeepsName user
    → on_disconnection user c ≡ ok c'
    → SameName c c'
unfolding on_disconnection
on_disconnection-SameName user c c' keeps h =
    let (c₁, called, e) =
      bind-returns (invoke user.on_disconnection c) (λ c₁. ok (record c₁ { closed = true })) c' h in
    let s = keeps.disconnection c c₁ called in
    let out : record c₁ { closed = true } ≡ c' = cc e in
    (
      ap (λ (x : Connection). x.id) (sym out) ∙ s.0,
      ap (λ (x : Connection). x.connfd) (sym out) ∙ s.1,
    )

on_received-SameName :
    (user : Callbacks) (c c' : Connection) (cs : List ℕ)
    → KeepsName user
    → on_received user c cs ≡ ok c'
    → SameName c c'
unfolding on_received
on_received-SameName user c c' cs keeps h = elim (Bool-cases (nat_eq (length cs) 0)) [
  | inl nothing ↦ on_disconnection-SameName user c c' keeps (rw nothing at h)
  | inr some_read ↦
      let h' = rw some_read at h in
      let (w, wrote, called) =
        bind-returns (write c.read_buffer cs)
          (λ w. invoke user.on_message (record c { read_buffer = w.1 })) c' h' in
      keeps.message (record c { read_buffer = w.1 }) c' called
]

module _ (net : Socket) where
  open net use {S}

  pub on_readable_event-SameName :
      (user : Callbacks) (now : ℕ) (c c' : Connection) (s s' : S)
      → KeepsName user
      → on_readable_event net user now c s ≡ ok (c', s')
      → SameName c c'
  unfolding on_readable_event
  on_readable_event-SameName user now c c' s s' keeps h =
      let space = get_max_space c.read_buffer in
      elim (Bool-cases (nat_eq space 0)) [
        | inl full ↦ absurd (cc (rw full at h))
        | inr open_space ↦
            let h' = rw open_space at h in
            let (r, ran, rest) =
              bind-returns (read_socket net (space + 1) s space)
                (λ r.
                  on_received user (record c { last_active_time = now }) r.0 >>= λ c'. ok (c', r.1))
                (c', s') h' in
            let (c₁, received, out) =
              bind-returns (on_received user (record c { last_active_time = now }) r.0)
                (λ c'. ok (c', r.1)) (c', s') rest in
            let same : c₁ ≡ c' = cc out in
            let n =
              on_received-SameName user (record c { last_active_time = now }) c₁ r.0 keeps
                received in
            (
              ap (λ (x : Connection). x.id) (sym same) ∙ n.0,
              ap (λ (x : Connection). x.connfd) (sym same) ∙ n.1,
            )
      ]

  pub on_writable_event-SameName :
      (now : ℕ) (c c' : Connection) (s s' : S)
      → on_writable_event net now c s ≡ ok (c', s')
      → SameName c c'
  unfolding on_writable_event on_sent
  on_writable_event-SameName now c c' s s' h =
      let c₁ = record c { last_active_time = now } in
      let size = c.write_buffer.count in
      elim (Bool-cases (nat_eq size 0)) [
        | inl nothing ↦
            let h' : ok (c₁, s) ≡ ok (c', s') = rw nothing at h in
            let same : c₁ ≡ c' = cc h' in named c₁ c' (refl, refl) same
        | inr some_left ↦
            let h' = rw some_left at h in
            let (bytes, copied, rest) =
              bind-returns (copy c.write_buffer size)
                (λ bytes. write_socket net (size + 1) s bytes >>= λ r.
                  on_sent c₁ r.0 >>= λ c₂. ok (c₂, r.1))
                (c', s') h' in
            let (r, wrote, rest') =
              bind-returns (write_socket net (size + 1) s bytes)
                (λ r. on_sent c₁ r.0 >>= λ c₂. ok (c₂, r.1)) (c', s') rest in
            let (c₂, sent, out) =
              bind-returns (on_sent c₁ r.0) (λ c₂. ok (c₂, r.1)) (c', s') rest' in
            let same : c₂ ≡ c' = cc out in named c₂ c' (on_sent-SameName c₁ c₂ r.0 sent) same
      ]
    where
      named : (x y : Connection) → SameName c x → x ≡ y → SameName c y
      named x y n e = (
        ap (λ (z : Connection). z.id) (sym e) ∙ n.0,
        ap (λ (z : Connection). z.connfd) (sym e) ∙ n.1,
      )

      on_sent-SameName : (x y : Connection) (n : ℕ) → on_sent x n ≡ ok y → SameName x y
      on_sent-SameName x y n e = elim (Bool-cases (nat_eq n 0)) [
        | inl none_sent ↦
            let e' : ok x ≡ ok y = rw none_sent at e in
            let same : x ≡ y = cc e' in
            (ap (λ (z : Connection). z.id) (sym same), ap (λ (z : Connection). z.connfd) (sym same))
        | inr some_sent ↦
            let e' = rw some_sent at e in
            let (b, skipped, out) =
              bind-returns (skip_head x.write_buffer n) (λ b. ok (record x { write_buffer = b })) y
                e' in
            let same : record x { write_buffer = b } ≡ y = cc out in
            (ap (λ (z : Connection). z.id) (sym same), ap (λ (z : Connection). z.connfd) (sym same))
      ]
