-- ===== src/HashTable/Sizes.antt =====
-- `nextPower`: the sizes of tables.
use yeyj_tcp_server.Base.{
  ℕ, zero, suc, ◌*◌, ◌%◌, ◌^◌, ◌≤◌, ◌<◌, ◌≡◌, refl, ◌∙◌, ◌⊎◌, inl, inr, arith, true, false, leb,
  if◌then◌else◌, ok, ok_inj, Returns,
}
use native.Mathlib.Decide.{dec_le}
use yeyj_tcp_server.HashTable.Table.{next_power, next_power_loop, long_max, most_buckets}

-- What a size from `i` on is to a request.
abbrev pub Fits : (i size r : ℕ) → Type 0
Fits i size r = (size ≤ r) × ((r ≡ i) ⊎ (r < 2 * size)) × (i ≤ r)

-- `i` doubled `n` times.
abbrev doubled : (n i : ℕ) → ℕ
doubled zero i = i
doubled (suc n) i = doubled n (i * 2)

doubled_grows : (n i : ℕ) → i ≤ doubled n i
doubled_grows zero i = omega arith
doubled_grows (suc n) i = omega (arith, doubled_grows n (i * 2))

next_power_loop_step :
    (n i size : ℕ)
    → next_power_loop (suc n) i size
      ≡ (if leb size i then ok i else next_power_loop n (i * 2 % 2 ^ 64) size)
unfolding next_power_loop
next_power_loop_step n i size = refl

next_power_loop-Fits :
    (n i size : ℕ)
    → 0 < i
    → size ≤ doubled n i
    → doubled n i ≤ 2 ^ 63
    → Returns (next_power_loop (suc n) i size) (Fits i size)
next_power_loop-Fits zero i size some_size enough small =
    let fits : leb size i ≡ true = ground arith in
    (i, rw (next_power_loop_step 0 i size, fits), (omega arith, inl refl, omega arith))
next_power_loop-Fits (suc n) i size some_size enough small =
    let exact : i * 2 % 2 ^ 64 ≡ i * 2 = omega (arith, doubled_grows n (i * 2)) in
    let (r, run, (fits, least, above)) =
      next_power_loop-Fits n (i * 2) size (omega arith) enough small in
    elim (dec_le size i) [
      | yes le ↦
          let now : leb size i ≡ true = ground arith in
          (i, rw (next_power_loop_step (suc n) i size, now), (omega arith, inl refl, omega arith))
      | no gt ↦
          let later : leb size i ≡ false = ground arith in
          let tight : r < 2 * size = elim least [ inl e ↦ omega arith | inr lt ↦ lt ] in
          let next : next_power_loop (suc (suc n)) i size ≡ next_power_loop (suc n) (i * 2) size =
            next_power_loop_step (suc n) i size ∙ rw (later, exact) in
          (r, next ∙ run, (fits, inr tight, omega arith))
    ]

-- The doublings stop at the first size that is enough.
next_power_loop-le :
    (m n i size r : ℕ)
    → m ≤ n
    → 0 < i
    → size ≤ doubled m i
    → doubled n i ≤ 2 ^ 63
    → next_power_loop (suc n) i size ≡ ok r
    → r ≤ doubled m i
next_power_loop-le zero n i size r short some_size enough small run =
    let now : leb size i ≡ true = ground arith in
    let run' : ok i ≡ ok r = rw (next_power_loop_step n i size, now) at run in
    let same : i ≡ r = ok_inj run' in omega arith
next_power_loop-le (suc m) zero i size r short some_size enough small run = absurd (omega arith)
next_power_loop-le (suc m) (suc n) i size r short some_size enough small run =
    let exact : i * 2 % 2 ^ 64 ≡ i * 2 = omega (arith, doubled_grows n (i * 2)) in
    elim (dec_le size i) [
      | yes le ↦
          let now : leb size i ≡ true = ground arith in
          let run' : ok i ≡ ok r = rw (next_power_loop_step (suc n) i size, now) at run in
          let same : i ≡ r = ok_inj run' in omega (arith, doubled_grows m (i * 2))
      | no gt ↦
          let later : leb size i ≡ false = ground arith in
          let run' : next_power_loop (suc n) (i * 2) size ≡ ok r =
            rw (next_power_loop_step (suc n) i size, later, exact) at run in
          next_power_loop-le m n (i * 2) size r (omega arith) (omega arith) enough small run'
    ]

-- A request of at most 2 ^ 31 buckets gets no more.
pub next_power-le : (size r : ℕ) → size ≤ most_buckets → next_power size ≡ ok r → r ≤ most_buckets
unfolding next_power
next_power-le size r small run =
    let below : leb long_max size ≡ false = ground arith in
    let run' : next_power_loop 62 4 size ≡ ok r = rw below at run in
    next_power_loop-le 29 61 4 size r (omega arith) (omega arith) small (omega arith) run'

-- For a size up to LONG_MAX, `nextPower(size)` returns a size that is at least as large, and at
-- least 4; it is 4, or less than twice the size asked for.
pub next_power_lem : (size : ℕ) → size ≤ long_max → Returns (next_power size) (Fits 4 size)
unfolding next_power
next_power_lem size small = elim (dec_le long_max size) [
  | yes le ↦
      let top : leb long_max size ≡ true = ground arith in
      (long_max, rw top, (small, inr (omega arith), omega arith))
  | no gt ↦
      let below : leb long_max size ≡ false = ground arith in
      let (r, run, fits) =
        next_power_loop-Fits 61 4 size (omega arith) (omega arith) (omega arith) in
      (r, rw below run, fits)
]
