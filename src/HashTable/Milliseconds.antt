-- ===== src/HashTable/Milliseconds.antt =====
-- `rehashMilliseconds` on a valid dictionary.
use yeyj_tcp_server.Base.{
  none, ◌≡◌, ◌>>=◌, mul_int-ok, add_int-ok, int_max, Safe-map, length, ◌*◌, ◌≤◌, ℕ, ◌+◌, refl,
  arith, Bool, true, false, List, [], ◌∷◌, inl, inr, ltb, ok, Run, Returns, Safe, if◌then◌else◌,
  Option-cases,
}
use yeyj_tcp_server.HashTable.Chains.{Key}
use yeyj_tcp_server.HashTable.Moves.{Keeps}
use yeyj_tcp_server.HashTable.Rehash.{rehash_loop, rehash, rehash_until, rehash_milliseconds}
use yeyj_tcp_server.HashTable.Rounds.{Keeps-refl, Keeps-trans}
use yeyj_tcp_server.HashTable.Steps.{rehash-Keeps, none_branch, ending}
use yeyj_tcp_server.HashTable.Table.{Dict}
use yeyj_tcp_server.HashTable.Valid.{IsValid}

module _ {ℓ} {K V : Type ℓ} ⦃key : Key K⦄ where
  idle_rehash : (d : Dict K V) → d.rehashidx ≡ none → rehash 100 d ≡ ok (false, d)
  unfolding rehash
  idle_rehash d idle = rw (mul_int-ok 100 10 (omega arith)) (
      none_branch d.rehashidx (ok (false, d))
        (λ idx. rehash_loop 100 1000 idx d >>= λ got. ok (ending got)) idle)

  -- `rehash(100)` of a valid dictionary, idle or rehashing.
  rehash_any : (d : Dict K V) → IsValid d → Returns (rehash 100 d) (λ res. Keeps d res.1)
  rehash_any d valid = elim (Option-cases d.rehashidx) [
    | inl idle ↦ ((false, d), idle_rehash d idle, Keeps-refl d valid)
    | inr (r, at_r) ↦
        let (res, run, (keep, on)) = rehash-Keeps 100 r d valid at_r (omega arith) (omega arith) in
        (res, run, keep)
  ]

  rehash_until-Keeps :
      (ms rehashes : ℕ) (ticks : List ℕ) (d : Dict K V)
      → IsValid d
      → rehashes + length ticks * 100 ≤ int_max
      → Safe (rehash_until ms rehashes ticks d) (λ r. Keeps d r.1)
  unfolding rehash_until
  rehash_until-Keeps ms rehashes [] d valid room = inl refl
  rehash_until-Keeps ms rehashes (t ∷ ts) d valid room =
      let ((more, d'), run, keep) = rehash_any d valid in
      let later =
        Safe-map (rehash_until-Keeps ms (rehashes + 100) ts d' keep.valid (omega arith))
          (λ r k. Keeps-trans d d' r.1 keep k) in
      rw (run, add_int-ok rehashes 100 (omega arith)) (goes_on more (ltb ms t) d' keep later)
    where
      goes_on :
          (more late : Bool) (d' : Dict K V) {rest : Run (ℕ × Dict K V)}
          → Keeps d d'
          → Safe rest (λ r. Keeps d r.1)
          → Safe
              (if more then if late then ok (rehashes + 100, d') else rest else ok (rehashes, d'))
              (λ r. Keeps d r.1)
      goes_on false late d' keep later = inr ((rehashes, d'), refl, keep)
      goes_on true true d' keep later = inr ((rehashes + 100, d'), refl, keep)
      goes_on true false d' keep later = later

  -- `rehashMilliseconds(ms)` of a valid dictionary, for every list of times that the clock shows,
  -- so many that an `int` holds their number times 100: unless the list is used up, it returns, and
  -- the dictionary is valid, maps every key as before and has as many entries.
  rehash_milliseconds-Keeps :
      (ms : ℕ) (ticks : List ℕ) (d : Dict K V)
      → IsValid d
      → length ticks * 100 ≤ int_max
      → Safe (rehash_milliseconds ms ticks d) (λ r. Keeps d r.1)
  unfolding rehash_milliseconds
  rehash_milliseconds-Keeps ms ticks d valid room =
      rehash_until-Keeps ms 0 ticks d valid (omega arith)
