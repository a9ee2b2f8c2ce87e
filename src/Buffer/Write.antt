-- ===== src/Buffer/Write.antt =====
-- `putChar`, `grow` and `write`: what they add behind the bytes of a buffer.
use native.Mathlib.Nat.{mod-add-mod}
use yeyj_tcp_server.Base.{
  ℕ, zero, suc, ◌+◌, ◌-◌, ◌*◌, ◌%◌, ◌≤◌, ◌<◌, min, ◌≡◌, refl, sym, ap, ◌∙◌, arith, ◌&&◌, List, [],
  ◌∷◌, ◌++◌, append-nil, append_assoc, pos, ltb, if◌then◌else◌, Bool-cases, inl, inr, ok, Returns,
  set, take, replicate, length, length-set, length-append, length-replicate, take-all, take-append,
  take-min, length-take, add_int-ok, to_int-ok, store-ok,
}
use yeyj_tcp_server.Buffer.Read.{advance-ok, read-ok}
use yeyj_tcp_server.Buffer.Ring.{contents, IsValid, max_bytes, ring-set, ring-flat, length-contents}
use yeyj_tcp_server.Buffer.{
  Buffer, put_char, grow_size, fill, grow, write_loop, need_grow, can_grow, make_room, get_space,
  write, next_end,
}

-- The buffer with one more byte.
abbrev pub push : ℕ → Buffer → Buffer
push c b = record b {
  bytes = set b.bytes ((b.begin + b.count) % b.current_size) c;
  end = pos (((b.begin + b.count) % b.current_size + 1) % b.current_size);
  count = b.count + 1;
}

push-IsValid : (c : ℕ) {b : Buffer} → IsValid b → b.count < b.current_size → IsValid (push c b)
push-IsValid c {b} v h = record {
  storage = length-set b.bytes ((b.begin + b.count) % b.current_size) c ∙ v.storage;
  growable = v.growable;
  bounded = v.bounded;
  small = v.small;
  begin_in = v.begin_in;
  count_in = omega arith;
  end_at =
      rw mod-add-mod
        (let e : b.begin + b.count + 1 ≡ b.begin + (b.count + 1) = omega arith in rw e);
}

contents-push :
    (c : ℕ) {b : Buffer}
    → IsValid b
    → b.count < b.current_size
    → contents (push c b) ≡ contents b ++ c ∷ []
contents-push c {b} v h =
    let e : b.count + 1 ≡ suc b.count = omega arith in
    rw e (
      ring-set b.bytes b.current_size c b.count b.begin ((b.begin + b.count) % b.current_size)
        (omega arith) v.begin_in h refl)

pub put_char-ok :
    (c : ℕ) {b : Buffer} → IsValid b → b.count < b.current_size → put_char b c ≡ ok (push c b)
unfolding put_char next_end
put_char-ok c {b} v h =
    let tail = (b.begin + b.count) % b.current_size in
    let inside : tail < b.current_size = grind (arith, v.begin_in) in
    rw (
      v.end_at,
      store-ok b.bytes tail c (omega arith),
      next_end,
      advance-ok tail 1 b.current_size (omega arith) (omega arith),
      add_int-ok b.count 1 (omega arith),
    )

-- `b'` is `b` with the bytes `cs` behind its own, and is valid.
pub record Extends (b : Buffer) (cs : List ℕ) (b' : Buffer) : Type 0 where
  pub bytes : contents b' ≡ contents b ++ cs
  pub valid : IsValid b'
  pub same_max : b'.max_size ≡ b.max_size
  pub same_factor : b'.grow_factor ≡ b.grow_factor

pub write_loop-Extends :
    (cs : List ℕ) {b : Buffer}
    → IsValid b
    → b.count + length cs ≤ b.current_size
    → Returns (write_loop cs b) (Extends b cs)
unfolding write_loop
write_loop-Extends [] {b} v h =
    (b, refl, record { bytes = rw append-nil; valid = v; same_max = refl; same_factor = refl })
write_loop-Extends (c ∷ cs) {b} v h =
    let (b', run, x) = write_loop-Extends cs (push-IsValid c v (omega arith)) (omega arith) in
    (
      b',
      rw (put_char-ok c v (omega arith)) run,
      record {
        bytes =
            x.bytes ∙ rw (contents-push c v (omega arith)) (append_assoc (contents b) (c ∷ []) cs);
        valid = x.valid;
        same_max = x.same_max;
        same_factor = x.same_factor;
      },
    )

-- What `grow` needs of its factor: from 2 on the size grows, and at most doubles.
abbrev pub Grows : (ℕ → ℕ) → Type 0
Grows factor = (n : ℕ) → 2 ≤ n → (n < factor n) × (factor n ≤ 2 * n)

pub grow_size-ok :
    (rounds : ℕ) (factor : ℕ → ℕ) (size capacity : ℕ)
    → Grows factor
    → 2 ≤ size
    → capacity ≤ max_bytes
    → capacity < rounds + size
    → 0 < rounds
    → Returns (grow_size rounds factor size capacity) λ r. (capacity ≤ r) × (size ≤ r)
unfolding grow_size
grow_size-ok zero factor size capacity g two small enough more = absurd (omega arith)
grow_size-ok (suc rounds) factor size capacity g two small enough more =
    elim (Bool-cases (ltb size capacity)) [
      | inr done ↦ (size, rw done, (ground arith, omega arith))
      | inl again ↦
          let step = g size two in
          let below : size < capacity = ground arith in
          let (r, run, (reaches, above)) =
            grow_size-ok rounds factor (factor size) capacity g (omega arith) small (omega arith)
              (omega arith) in
          (r, rw (again, to_int-ok (factor size) (omega arith)) run, (reaches, omega arith))
    ]

fill-ok :
    (cs : List ℕ) (size : ℕ)
    → length cs ≤ size
    → fill cs size ≡ ok (cs ++ replicate (size - length cs) 0)
unfolding fill
fill-ok cs size h = ground arith

-- The buffer that `grow` leaves: its bytes moved to the front of an array of `size`.
abbrev pub regrown : ℕ → Buffer → Buffer
regrown size b = record b {
  bytes = contents b ++ replicate (size - length (contents b)) 0;
  count = b.count;
  begin = 0;
  end = pos b.count;
  current_size = size;
}

regrown_storage : (size : ℕ) (b : Buffer) → b.count ≤ size → length (regrown size b).bytes ≡ size
regrown_storage size b h = rw (length-append, length-replicate, length-contents b) (omega arith)

regrown-IsValid :
    (size : ℕ) {b : Buffer}
    → IsValid b
    → b.count < size
    → b.current_size ≤ size
    → size ≤ b.max_size
    → IsValid (regrown size b)
regrown-IsValid size {b} v room up top = record {
  storage = regrown_storage size b (omega arith);
  growable = omega arith;
  bounded = top;
  small = v.small;
  begin_in = omega arith;
  count_in = omega arith;
  end_at = let e : (0 + b.count) % size ≡ b.count = grind arith in rw e;
}

contents-regrown : (size : ℕ) (b : Buffer) → b.count ≤ size → contents (regrown size b) ≡ contents b
contents-regrown size b h =
    let stored = regrown_storage size b h in
    ring-flat (regrown size b).bytes size b.count 0 (omega arith) (omega arith)
    ∙ take-append (contents b) _ b.count (sym (length-contents b))

-- `b'` holds the bytes of `b` in an array of at least `capacity`, or of the largest size.
pub record Regrows (b : Buffer) (capacity : ℕ) (b' : Buffer) : Type 0 where
  pub bytes : contents b' ≡ contents b
  pub valid : IsValid b'
  pub reaches : min capacity b.max_size ≤ b'.current_size
  pub same_max : b'.max_size ≡ b.max_size
  pub same_factor : b'.grow_factor ≡ b.grow_factor

pub grow-Regrows :
    (capacity : ℕ) {b : Buffer}
    → IsValid b
    → Grows b.grow_factor
    → capacity ≤ max_bytes
    → b.count < min capacity b.max_size
    → Returns (grow b capacity) (Regrows b capacity)
unfolding grow
grow-Regrows capacity {b} v g small room =
    let (size, run, (reaches, above)) =
      grow_size-ok (capacity + 1) b.grow_factor b.current_size capacity g v.growable small
        (omega arith) (omega arith) in
    let top = if ltb b.max_size size then b.max_size else size in
    let whole : take b.count (contents b) ≡ contents b =
      take-all b.count (contents b) (rw length-contents (omega arith)) in
    let high : min capacity b.max_size ≤ top = ground arith in
    (
      regrown top b,
      rw (
        run,
        read-ok b.count v,
        whole,
        fill-ok (contents b) top (rw length-contents (omega arith)),
      ),
      record {
        bytes = contents-regrown top b (omega arith);
        valid = regrown-IsValid top v (omega arith) (ground arith) (ground arith);
        reaches = high;
        same_max = refl;
        same_factor = refl;
      },
    )

-- After `if(needGrow(n) && canGrow()) grow(_count + n);`.
make_room-Regrows :
    (n : ℕ) {b : Buffer}
    → IsValid b
    → Grows b.grow_factor
    → b.count + n ≤ max_bytes
    → Returns (make_room b n) (Regrows b (b.count + n))
unfolding make_room need_grow can_grow
make_room-Regrows n {b} v g small =
    let sum = add_int-ok b.count n (omega arith) in
    elim (Bool-cases (ltb b.current_size (b.count + n) && ltb b.current_size b.max_size)) [
      | inl grows ↦
          let (b', run, x) = grow-Regrows (b.count + n) v g small (ground arith) in
          (b', rw (sum, grows) run, x)
      | inr stays ↦ (
        b,
        rw (sum, stays),
        record {
          bytes = refl;
          valid = v;
          reaches = ground arith;
          same_max = refl;
          same_factor = refl;
        },
      )
    ]

-- The number of bytes that `write` stores once there is room, and the loop that stores them.
room_clipped :
    (src : List ℕ) (b b' : Buffer)
    → Regrows b (b.count + length src) b'
    → b'.count ≡ b.count
    → (if ltb (b'.current_size - b'.count) (length src)
        then b'.current_size - b'.count
        else length src)
      ≡ min (b.max_size - b.count) (length src)
room_clipped src b b' m kept = ground (arith, m.reaches, m.same_max, m.valid.bounded)

write_clipped :
    (src : List ℕ) (n : ℕ) (b b' : Buffer)
    → Regrows b (b.count + length src) b'
    → b'.count ≡ b.count
    → n ≡ min (b.max_size - b.count) (length src)
    → Returns (write_loop (take n src) b') (Extends b (take (b.max_size - b.count) src))
write_clipped src n b b' m kept e =
    let fits : b'.count + length (take n src) ≤ b'.current_size =
      omega (arith, length-take n src, m.reaches) in
    let (b'', run, x) = write_loop-Extends (take n src) m.valid fits in
    (
      b'',
      run,
      record {
        bytes = x.bytes ∙ rw (m.bytes, e, take-min (b.max_size - b.count) src);
        valid = x.valid;
        same_max = x.same_max ∙ m.same_max;
        same_factor = x.same_factor ∙ m.same_factor;
      },
    )

-- On a valid buffer whose factor grows, and within 1 GiB, `write(src, n)` does not fault. It
-- appends the first bytes of `src` in order, as many as fit below the largest size, returns their
-- number, and keeps the invariant, the largest size and the factor.
pub write_lem :
    (src : List ℕ) {b : Buffer}
    → IsValid b
    → Grows b.grow_factor
    → b.count + length src ≤ max_bytes
    → Returns (write b src) λ r.
      (r.0 ≡ min (b.max_size - b.count) (length src))
      × Extends b (take (b.max_size - b.count) src) r.1
unfolding write get_space
write_lem src {b} v g small =
    let (b', run, m) = make_room-Regrows (length src) v g small in
    let kept : b'.count ≡ b.count =
      sym (length-contents b') ∙ (ap length m.bytes ∙ length-contents b) in
    let e = room_clipped src b b' m kept in
    let (b'', run', x) = write_clipped src _ b b' m kept e in
    ((min (b.max_size - b.count) (length src), b''), rw (run, run', e), (refl, x))
