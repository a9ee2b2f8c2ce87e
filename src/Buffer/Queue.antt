-- ===== src/Buffer/Queue.antt =====
-- A `Buffer` against its contract: a queue of bytes that holds at most `_maxSize`.
use yeyj_tcp_server.Base.{
  ℕ, ◌+◌, ◌-◌, ◌≤◌, min, ◌≡◌, refl, inl, inr, arith, List, [], ◌∷◌, ◌++◌, leb, if◌then◌else◌, Run,
  ok, fault, Fault, assertion, ◌>>=◌, take, drop, length, Bool-cases,
}
use yeyj_tcp_server.Buffer.Read.{
  read-ok, copy-ok, skip_head-ok, skip_head_lem, after, after-IsValid, contents-after,
  contents-after_clipped,
}
use yeyj_tcp_server.Buffer.Ring.{contents, IsValid, max_bytes, length-contents}
use yeyj_tcp_server.Buffer.Write.{Grows, write_lem}
use yeyj_tcp_server.Buffer.{Buffer, write, read, copy, skip_head}

-- The calls that a client makes, and what each gives it.
pub data Op : Type 0 where
  put : List ℕ → Op
  get : ℕ → Op
  look : ℕ → Op
  skip : ℕ → Op

pub data Reply : Type 0 where
  stored : ℕ → Reply
  bytes : List ℕ → Reply
  done : Reply

pub call : Buffer → Op → Run (Reply × Buffer)
call b (put src) = do (n, b') ← write b src; ok (stored n, b')
call b (get n) = do (cs, b') ← read b n; ok (bytes cs, b')
call b (look n) = do cs ← copy b n; ok (bytes cs, b)
call b (skip n) = do b' ← skip_head b n; ok (done, b')

pub calls : Buffer → List Op → Run (List Reply)
calls b [] = ok []
calls b (op ∷ ops) = do (r, b') ← call b op; rs ← calls b' ops; ok (r ∷ rs)

-- The queue of at most `cap` bytes.
module _ (cap : ℕ) where
  pub serve : List ℕ → Op → Run (Reply × List ℕ)
  serve q (put src) =
      ok (stored (min (cap - length q) (length src)), q ++ take (cap - length q) src)
  serve q (get n) = ok (bytes (take n q), drop n q)
  serve q (look n) = ok (bytes (take n q), q)
  serve q (skip n) = if leb n (length q) then ok (done, drop n q) else fault assertion

  pub serves : List ℕ → List Op → Run (List Reply)
  serves q [] = ok []
  serves q (op ∷ ops) = do (r, q') ← serve q op; rs ← serves q' ops; ok (r ∷ rs)

-- No sum of a size and a request leaves the range of positions.
abbrev pub IsSmall : ℕ → List Op → Type 0
IsSmall cap [] = Unit {0}
IsSmall cap (put src ∷ ops) = (cap + length src ≤ max_bytes) × IsSmall cap ops
IsSmall cap (op ∷ ops) = IsSmall cap ops

first : (op : Op) (ops : List Op) (cap : ℕ) → IsSmall cap (op ∷ ops) → IsSmall cap (op ∷ [])
first (put src) ops cap h = (h.0, tt)
first (get n) ops cap h = tt
first (look n) ops cap h = tt
first (skip n) ops cap h = tt

others : (op : Op) (ops : List Op) (cap : ℕ) → IsSmall cap (op ∷ ops) → IsSmall cap ops
others (put src) ops cap h = h.1
others (get n) ops cap h = h
others (look n) ops cap h = h
others (skip n) ops cap h = h

-- One call and the queue's answer end alike.
data Agrees (b : Buffer) (op : Op) : Type 0 where
  returns :
      (r : Reply) (b' : Buffer)
      → call b op ≡ ok (r, b')
      → serve b.max_size (contents b) op ≡ ok (r, contents b')
      → IsValid b'
      → b'.max_size ≡ b.max_size
      → b'.grow_factor ≡ b.grow_factor
      → Agrees b op
  faults :
      (e : Fault) → call b op ≡ fault e → serve b.max_size (contents b) op ≡ fault e → Agrees b op

call-Agrees :
    (op : Op) {b : Buffer}
    → IsValid b
    → Grows b.grow_factor
    → IsSmall b.max_size (op ∷ [])
    → Agrees b op
unfolding call serve
call-Agrees (put src) {b} v g small =
    let (r, run, (n, x)) = write_lem src v g (omega (arith, v.bounded, v.count_in)) in
    returns (stored r.0) r.1 (rw run) (rw (length-contents, n, x.bytes)) x.valid x.same_max
      x.same_factor
call-Agrees (get n) {b} v g small =
    let k = min n b.count in
    returns (bytes (take n (contents b))) (after k b) (rw (read-ok n v))
      (rw (contents-after_clipped n v)) (after-IsValid k v (omega arith)) refl refl
call-Agrees (look n) {b} v g small =
    returns (bytes (take n (contents b))) b (rw (copy-ok n v)) refl v refl refl
call-Agrees (skip n) {b} v g small = elim (Bool-cases (leb n b.count)) [
  | inl some_left ↦
      let le : n ≤ b.count = ground arith in
      returns done (after n b) (rw (skip_head-ok n v le))
        (rw (length-contents, some_left, contents-after n v le)) (after-IsValid n v le) refl refl
  | inr short ↦
      faults assertion (rw ((skip_head_lem n v).1 (ground arith))) (rw (length-contents, short))
]

-- On a valid buffer whose factor grows, no sequence of writes, reads, copies and skips (within
-- 1 GiB) tells the ring with its growing array from a queue of at most `_maxSize` bytes: the calls
-- give the same replies, and fail at the same `assert`.
pub calls-serves :
    (ops : List Op) {b : Buffer}
    → IsValid b
    → Grows b.grow_factor
    → IsSmall b.max_size ops
    → calls b ops ≡ serves b.max_size (contents b) ops
unfolding calls serves
calls-serves [] v g small = refl
calls-serves (op ∷ ops) {b} v g small = elim (call-Agrees op v g (first op ops b.max_size small)) [
  | returns r b' run spec v' m f ↦
      let factor : Grows b'.grow_factor = rw f g in
      let below : IsSmall b'.max_size ops = rw m (others op ops b.max_size small) in
      rw (run, spec, calls-serves ops v' factor below, m)
  | faults e run spec ↦ rw (run, spec)
]
