-- ===== src/HashTable/Rehash.antt =====
-- The incremental rehash of hash.h: `rehash`, `rehashStep` and `rehashMilliseconds`.
use yeyj_tcp_server.Base.{
  mul_int, add_int, ℕ, zero, suc, ◌+◌, ◌-◌, Bool, true, false, Option, none, some, List, [], ◌∷◌,
  pos, ltb, ◌==◌ as nat_eq, if◌then◌else◌, Run, ok, fault, endless, ◌>>=◌, ◌>>◌, at, store, assert,
}
use yeyj_tcp_server.HashTable.Chains.{Key, Chain, slot}
use yeyj_tcp_server.HashTable.Table.{Dict, is_null, no_table, is_rehashing}

module _ {ℓ} {K V : Type ℓ} where
  -- The inner loop of `rehash` that passes over empty buckets from `idx` on: the visits left, the
  -- index and the chain of the first bucket that is not empty, or `none` for `return 1`.
  unfoldable pub skip_empty : ℕ → List (Chain K V) → ℕ → Run (ℕ × ℕ × Option (Chain K V))
  skip_empty zero table idx = fault endless
  skip_empty (suc visits) table idx = do
    c ← at table idx
    let rest = skip_empty visits table (idx + 1)
    if is_null c
        then if nat_eq visits 0 then ok (0, idx + 1, none) else rest
        else ok (suc visits, idx, some c)

  module _ ⦃key : Key K⦄ where
    -- The loop that moves the entries of one bucket.
    unfoldable pub move_chain : Chain K V → Dict K V → Run (Dict K V)
    move_chain [] d = ok d
    move_chain (e ∷ es) d = do
      let h = slot e.0 d.ht1.sizemask
      c ← at d.ht1.table h
      t ← store d.ht1.table (pos h) (e ∷ c)
      move_chain es (record d {
        ht0 = record (d.ht0) { used = d.ht0.used - 1 };
        ht1 = record (d.ht1) { table = t; used = d.ht1.used + 1 };
      })

    -- One round of the outer loop of `rehash` behind its inner loop: bucket `idx` holds `c`.
    unfoldable pub move_bucket : ℕ → Chain K V → Dict K V → Run (Dict K V)
    move_bucket idx c d = do
      d' ← move_chain c d
      t ← store d'.ht0.table (pos idx) []
      ok (record d' { ht0 = record (d'.ht0) { table = t }; rehashidx = some (idx + 1) })

    -- `while(n-- && ht[0].used != 0)`; the flag is set where the inner loop has returned 1.
    unfoldable pub rehash_loop : ℕ → ℕ → ℕ → Dict K V → Run (Bool × Dict K V)
    unfolding assert
    rehash_loop zero visits idx d = ok (false, d)
    rehash_loop (suc n) visits idx d =
        let round = (do
          assert (ltb idx d.ht0.size)
          (visits', idx', found) ← skip_empty visits d.ht0.table idx
          elim found [
            | none ↦ ok (true, record d { rehashidx = some idx' })
            | some c ↦ do d' ← move_bucket idx' c d; rehash_loop n visits' (idx' + 1) d'
          ]) in
        if nat_eq d.ht0.used 0 then ok (false, d) else round

    -- `rehash` behind its loop: the second table takes the place of the first once that is empty.
    unfoldable pub finish : Dict K V → Bool × Dict K V
    finish d =
        if nat_eq d.ht0.used 0
        then (false, record d { ht0 = d.ht1; ht1 = no_table; rehashidx = none })
        else (true, d)

    -- `rehash(n)`, with whether it returns 1: there is more to do.
    unfoldable pub rehash : ℕ → Dict K V → Run (Bool × Dict K V)
    rehash n d = do
      visits ← mul_int n 10
      elim d.rehashidx [
        | none ↦ ok (false, d)
        | some idx ↦ do
          (early, d') ← rehash_loop n visits idx d
          ok (if early then (true, d') else finish d')
      ]

    unfoldable pub rehash_step : Dict K V → Run (Dict K V)
    rehash_step d =
        let step = (do (more, d') ← rehash 1 d; ok d') in
        if nat_eq d.iterators 0 then step else ok d

    -- `if (isRehashing()) rehashStep();`
    unfoldable pub step_if_rehashing : Dict K V → Run (Dict K V)
    unfolding is_rehashing
    step_if_rehashing d = if is_rehashing d then rehash_step d else ok d

    -- The loop of `rehashMilliseconds`, with `rehashes`: `ticks` are the milliseconds since the start
    -- after each call of `rehash(100)`.
    unfoldable pub rehash_until : ℕ → ℕ → List ℕ → Dict K V → Run (ℕ × Dict K V)
    rehash_until ms rehashes [] d = fault endless
    rehash_until ms rehashes (t ∷ ts) d = do
      (more, d') ← rehash 100 d
      let onward = (do
        n ← add_int rehashes 100
        let rest = rehash_until ms n ts d'
        if ltb ms t then ok (n, d') else rest)
      if more then onward else ok (rehashes, d')

    unfoldable pub rehash_milliseconds : ℕ → List ℕ → Dict K V → Run (ℕ × Dict K V)
    rehash_milliseconds ms ticks d = rehash_until ms 0 ticks d
