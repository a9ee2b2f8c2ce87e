-- ===== src/HashTable/Random.antt =====
-- `getRandomEntry` of hash.h and the two methods that call it. The numbers that `random()` gives
-- are a list.
use Prim.Native.Nat.{bit_and}
use yeyj_tcp_server.Base.{
  ℕ, ◌+◌, ◌-◌, ◌%◌, ◌^◌, Option, none, some, List, [], ◌∷◌, leb, ◌==◌ as nat_eq, if◌then◌else◌,
  length, Run, ok, fault, to_int, null_pointer, endless, ◌>>=◌, at,
}
use yeyj_tcp_server.HashTable.Chains.{Key, Chain}
use yeyj_tcp_server.HashTable.Table.{Dict, is_null, size, is_rehashing}
use yeyj_tcp_server.HashTable.Rehash.{step_if_rehashing}

module _ {ℓ} {K V : Type ℓ} where
  -- The chain at `h` of the two tables in a row, while rehashing, or of the first.
  unfoldable pub pick_bucket : Dict K V → ℕ → Run (Chain K V)
  unfolding is_rehashing
  pick_bucket d r = elim d.rehashidx [
    | none ↦ at d.ht0.table (bit_and r d.ht0.sizemask)
    | some idx ↦
        let h = (idx + r % (d.ht0.size + d.ht1.size - idx)) % 2 ^ 32 in
        if leb d.ht0.size h then at d.ht1.table (h - d.ht0.size) else at d.ht0.table h
  ]

  -- The loop that draws until it meets a bucket that is not null, over the results of `random()`.
  unfoldable pub draw_bucket : List ℕ → Dict K V → Run (Chain K V × List ℕ)
  draw_bucket [] d = fault endless
  draw_bucket (r ∷ rs) d = do
    c ← pick_bucket d r
    let rest = draw_bucket rs d
    if is_null c then rest else ok (c, rs)

  module _ ⦃key : Key K⦄ where
    -- `getRandomEntry`, over the results of `random()`; `none` is the null pointer.
    unfoldable pub get_random_entry : List ℕ → Dict K V → Run (Option (K × V) × Dict K V)
    get_random_entry draws d =
        let choose = (do
          d' ← step_if_rehashing d
          (c, rs) ← draw_bucket draws d'
          elim rs [
            | [] ↦ fault endless
            | r ∷ rest ↦ do listlen ← to_int (length c); e ← at c (r % listlen); ok (some e, d')
          ]) in
        if nat_eq (size d) 0 then ok (none, d) else choose

    unfoldable pub get_random_value : List ℕ → Dict K V → Run (V × Dict K V)
    get_random_value draws d = do
      (e, d') ← get_random_entry draws d
      elim e [ none ↦ fault null_pointer | some (k, v) ↦ ok (v, d') ]

    unfoldable pub get_random_key : List ℕ → Dict K V → Run (K × Dict K V)
    get_random_key draws d = do
      (e, d') ← get_random_entry draws d
      elim e [ none ↦ fault null_pointer | some (k, v) ↦ ok (k, d') ]
