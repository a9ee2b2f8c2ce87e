-- ===== src/Buffer/Ring.antt =====
-- The bytes that a `Buffer` holds, oldest first, and the invariant of its fields.
use native.Mathlib.Nat.{mod-add-mod, mod-eq_of_lt, mod-eq-sub-mod}
use native.Mathlib.Decide.{dec_lt}
use yeyj_tcp_server.Base.{
  ℕ, zero, suc, ◌+◌, ◌-◌, ◌%◌, ◌^◌, ◌≤◌, ◌<◌, ◌≡◌, ◌≢◌, refl, sym, ap, ◌∙◌, arith, List, [], ◌∷◌,
  ◌++◌, pos, drop-cons, length, get_or, set, take, drop, get_or-set_self, get_or-set_ne,
}
use yeyj_tcp_server.Buffer.{Buffer}

module _ (bytes : List ℕ) (size : ℕ) where
  -- `n` bytes from index `i` on, going round at `size`.
  abbrev pub ring : ℕ → ℕ → List ℕ
  ring i zero = []
  ring i (suc n) = get_or bytes i 0 ∷ ring ((i + 1) % size) n

  pub length-ring : (i n : ℕ) → length (ring i n) ≡ n
  length-ring i zero = refl
  length-ring i (suc n) = ap suc (length-ring ((i + 1) % size) n)

  round : (i k : ℕ) → ((i + 1) % size + k) % size ≡ (i + suc k) % size
  round i k = rw mod-add-mod (ap (λ j. j % size) (omega arith))

  pub drop-ring : (k i n : ℕ) → i < size → k ≤ n → drop k (ring i n) ≡ ring ((i + k) % size) (n - k)
  drop-ring zero i n h le =
      let e : (i + 0) % size ≡ i = grind arith in let d : n - 0 ≡ n = omega arith in rw (e, d)
  drop-ring (suc k) i zero h le = absurd (omega arith)
  drop-ring (suc k) i (suc n) h le =
      let d : suc n - suc k ≡ n - k = omega arith in
      rw (← round i k, d) (drop-ring k ((i + 1) % size) n (omega arith) (omega arith))

  pub get_or-ring :
      (k i n : ℕ) → i < size → k < n → get_or (ring i n) k 0 ≡ get_or bytes ((i + k) % size) 0
  get_or-ring k i zero h le = absurd (omega arith)
  get_or-ring zero i (suc n) h le = let e : (i + 0) % size ≡ i = grind arith in rw e
  get_or-ring (suc k) i (suc n) h le =
      rw (← round i k) (get_or-ring k ((i + 1) % size) n (omega arith) (omega arith))

  -- All but the last `k` bytes.
  pub take-ring : (k i n : ℕ) → k ≤ n → take k (ring i n) ≡ ring i k
  take-ring zero i n le = refl
  take-ring (suc k) i zero le = absurd (omega arith)
  take-ring (suc k) i (suc n) le =
      ap (λ cs. get_or bytes i 0 ∷ cs) (take-ring k ((i + 1) % size) n (omega arith))

-- From an index, fewer than `size` steps round do not lead back to it.
round_ne : (size i k : ℕ) → i < size → suc k < size → (i + suc k) % size ≢ i
round_ne size i k hi hk = elim (dec_lt (i + suc k) size) [
  | yes p ↦ omega (arith, mod-eq_of_lt p)
  | no p ↦ omega (
    arith,
    mod-eq-sub-mod {n = i + suc k} {m = size} (omega arith),
    mod-eq_of_lt {n = i + suc k - size} {m = size} (omega arith),
  )
]

-- A byte stored behind the last one is appended.
pub ring-set :
    (bytes : List ℕ) (size c n i j : ℕ)
    → size ≤ length bytes
    → i < size
    → n < size
    → j ≡ (i + n) % size
    → ring (set bytes j c) size i (suc n) ≡ ring bytes size i n ++ c ∷ []
ring-set bytes size c zero i j hs hi hn e =
    let start : j ≡ i = grind arith in rw (start, get_or-set_self bytes i c 0 (omega arith))
ring-set bytes size c (suc n) i j hs hi hn e =
    rw (get_or-set_ne bytes j i c 0 (rw e (round_ne size i n hi hn))) (
      ap (λ cs. get_or bytes i 0 ∷ cs)
        (ring-set bytes size c n ((i + 1) % size) j hs (omega arith) (omega arith)
          (e ∙ sym (round bytes size i n))))

-- The bytes of a buffer, oldest first.
abbrev pub contents : Buffer → List ℕ
contents b = ring b.bytes b.current_size b.begin b.count

pub length-contents : (b : Buffer) → length (contents b) ≡ b.count
length-contents b = length-ring b.bytes b.current_size b.begin b.count

-- At most 1 GiB, so that no sum of two positions overflows.
abbrev pub max_bytes : ℕ
max_bytes = 2 ^ 30

pub record IsValid (b : Buffer) : Type 0 where
  pub storage : length b.bytes ≡ b.current_size
  pub growable : 2 ≤ b.current_size
  pub bounded : b.current_size ≤ b.max_size
  pub small : b.max_size ≤ max_bytes
  pub begin_in : b.begin < b.current_size
  pub count_in : b.count ≤ b.current_size
  pub end_at : b.end ≡ pos ((b.begin + b.count) % b.current_size)

-- Bytes that do not reach the end of the array stand in one piece.
pub ring-flat :
    (bytes : List ℕ) (size n i : ℕ)
    → size ≤ length bytes
    → i + n ≤ size
    → ring bytes size i n ≡ take n (drop i bytes)
ring-flat bytes size zero i hs h = refl
ring-flat bytes size (suc zero) i hs h = rw (drop-cons bytes i 0 (omega arith))
ring-flat bytes size (suc (suc n)) i hs h =
    let e : (i + 1) % size ≡ suc i = grind arith in
    rw (drop-cons bytes i 0 (omega arith), e, ring-flat bytes size (suc n) (suc i) hs (omega arith))
