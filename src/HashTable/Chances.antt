-- ===== src/HashTable/Chances.antt =====
-- Which results of `random()` let `getRandomEntry` end, and what `getRandomValue` gives.
use mathlib.Core.Path.{subst}
use native.Mathlib.Decide.{ℕ_discrete, dec_lt}
use native.Mathlib.Nat.{mod-lt, mod-eq_of_lt}
use Prim.Native.Nat.{bit_and}
use yeyj_tcp_server.Base.{
  int_max, to_int-ok, bit_and-twice, ℕ, suc, ◌+◌, ◌-◌, ◌%◌, ◌^◌, ◌≤◌, ◌<◌, ◌≡◌, refl, sym, ap, ◌∙◌,
  arith, false, Option, none, some, List, [], ◌∷◌, ◌==◌ as nat_eq, leb, inl, inr, length, get_or,
  ok, fault, Returns, Safe, Safe-returns, bind-Safe, Run, null_pointer, at, at-ok, Option-cases,
}
use yeyj_tcp_server.HashTable.Chains.{Key, Chain, hash_of, slot}
use yeyj_tcp_server.HashTable.Drawing.{
  IsDrawn, bucket-entries, entry-count, first_inside, get_random_entry-IsDrawn,
}
use yeyj_tcp_server.HashTable.Lookup.{unsized}
use yeyj_tcp_server.HashTable.Moves.{Keeps}
use yeyj_tcp_server.HashTable.Random.{pick_bucket, draw_bucket, get_random_entry, get_random_value}
use yeyj_tcp_server.HashTable.Steps.{HasWork, step_if_rehashing-HasWork}
use yeyj_tcp_server.HashTable.Table.{Dict, is_null, size}
use yeyj_tcp_server.HashTable.Valid.{entries, count, view, Mode, IsValid}

-- A table with entries has a bucket with entries.
full_bucket {ℓ} :
    {A : Type ℓ} (t : List (List A))
    → 0 < entries t
    → (i : ℕ) × (i < length t) × (0 < length (get_or t i []))
unfolding entries
full_bucket [] h = absurd (omega arith)
full_bucket ((x ∷ c) ∷ t) h = (0, omega arith, omega arith)
full_bucket ([] ∷ t) h =
    let (i, lt, full) = full_bucket t (omega arith) in (suc i, omega arith, full)

module _ {ℓ} {K V : Type ℓ} ⦃key : Key K⦄ where
  first_key : (c : Chain K V) → 0 < length c → (k : K) × (0 < count k c)
  first_key [] h = absurd (omega arith)
  first_key (e ∷ c) h = (e.0, entry-count e.0 e.1 (e ∷ c) 0 (unfold at in refl))

  full_is_some : (c : Chain K V) → 0 < length c → is_null c ≡ false
  full_is_some [] h = absurd (omega arith)
  full_is_some (e ∷ c) h = refl

  at_runs : (c : Chain K V) (s : ℕ) → 0 < length c → (e : K × V) × (at c (s % length c) ≡ ok e)
  at_runs [] s h = absurd (omega arith)
  at_runs (x ∷ c) s h =
      (get_or (x ∷ c) (s % length (x ∷ c)) x, at-ok (x ∷ c) (s % length (x ∷ c)) x (mod-lt s h))

  -- Some result of `random()` gives a bucket with entries.
  good_draw :
      (d : Dict K V)
      → IsValid d
      → 0 < d.ht0.used + d.ht1.used
      → HasWork d
      → (r : ℕ) × (r ≤ int_max)
        × Returns (pick_bucket d r) (λ c. (0 < length c) × (length c ≤ d.ht0.used + d.ht1.used))
  unfolding pick_bucket slot
  good_draw d valid some_there work = elim (Option-cases d.rehashidx) [
    | inl idle ↦
        let t = d.ht0.table in
        let m : Mode none d = subst (λ o. Mode o d) idle valid.mode in
        let alone = unsized d.ht1 valid.placed1 m.1 in
        let (i, lt, full) = full_bucket t (omega (arith, valid.placed0.counted)) in
        let (k, occurs) = first_key (get_or t i []) full in
        elim (ℕ_discrete i (slot k d.ht0.sizemask)) [
          | no ne ↦ absurd (omega (arith, valid.placed0.homes k i ne))
          | yes same ↦
              let again : bit_and i d.ht0.sizemask ≡ i =
                rw same (bit_and-twice (hash_of k) d.ht0.sizemask) in
              (
                i,
                omega (arith, valid.placed0.width, valid.placed0.within),
                (
                  get_or t i [],
                  rw (idle, again, at-ok t i [] lt),
                  (full, omega (arith, bucket-entries t i, valid.placed0.counted)),
                ),
              )
        ]
    | inr (idx, at_idx) ↦
        let t = d.ht0.table in
        let m : Mode (some idx) d = subst (λ o. Mode o d) at_idx valid.mode in
        let inside = first_inside idx d valid at_idx (work idx at_idx) in
        let (i, lt, full) = full_bucket t (omega (arith, valid.placed0.counted, work idx at_idx)) in
        let ahead : idx ≤ i = elim (dec_lt i idx) [
          | no ge ↦ omega arith
          | yes before ↦ let bare = ap length (m.1 i before) in absurd (omega arith)
        ] in
        let left = d.ht0.size + d.ht1.size - idx in
        let drawn : (i - idx) % left ≡ i - idx =
          mod-eq_of_lt (omega (arith, valid.placed0.width)) in
        let there : idx + (i - idx) ≡ i = omega arith in
        let whole : i % 2 ^ 32 ≡ i =
          mod-eq_of_lt (omega (arith, valid.placed0.width, valid.placed0.within)) in
        let below : leb d.ht0.size i ≡ false = ground (arith, valid.placed0.width) in
        (
          i - idx,
          omega (arith, valid.placed0.width, valid.placed0.within),
          (
            get_or t i [],
            rw (at_idx, drawn, there, whole, below, at-ok t i [] lt),
            (full, omega (arith, bucket-entries t i, valid.placed0.counted)),
          ),
        )
  ]

  -- `getRandomEntry()` of a valid dictionary that is not empty, has no iterators, and as many entries
  -- as an `int` holds: there is a number from 0 to 2^31 - 1, as `random()` gives them, after which it
  -- returns an entry of the map, whatever `random()` gives next.
  pub get_random_entry-returns :
      (d : Dict K V)
      → IsValid d
      → d.iterators ≡ 0
      → 0 < d.ht0.used + d.ht1.used
      → d.ht0.used + d.ht1.used ≤ int_max
      → (r : ℕ) × (r ≤ int_max)
        × ((s : ℕ) (rest : List ℕ) → Returns (get_random_entry (r ∷ s ∷ rest) d) (IsDrawn d))
  unfolding get_random_entry draw_bucket size
  get_random_entry-returns d valid free some_there few =
      let (d₁, run, (keep, work)) = step_if_rehashing-HasWork d valid in
      let (r, drawn, (c, picked, (full, short))) =
        good_draw d₁ keep.valid (omega (arith, keep.same_size)) (work free) in
      let test : nat_eq (size d) 0 ≡ false = ground arith in
      let len = to_int-ok (length c) (omega (arith, short, keep.same_size)) in
      (
        r,
        drawn,
        λ s rest.
            (let (e, got) = at_runs c s full in
              Safe-returns {a = (some e, d₁)}
                (get_random_entry-IsDrawn (r ∷ s ∷ rest) d valid free few)
                (rw (test, run, picked, full_is_some c full, len, got))),
      )

  -- `getRandomValue()` of a valid dictionary that is not empty, has no iterators, and as many entries
  -- as an `int` holds, for every list
  -- of results of `random()`: unless the list is used up it returns the value of a key, and the
  -- dictionary stays valid, maps every key as before, and has as many entries.
  pub get_random_value-Keeps :
      (draws : List ℕ) (d : Dict K V)
      → IsValid d
      → d.iterators ≡ 0
      → 0 < size d
      → d.ht0.used + d.ht1.used ≤ int_max
      → Safe (get_random_value draws d) (λ r. Keeps d r.1 × ((k : K) × (view d k ≡ some r.0)))
  unfolding get_random_value
  get_random_value-Keeps draws d valid free some_there few =
      bind-Safe (get_random_entry draws d) _ (get_random_entry-IsDrawn draws d valid free few)
        value_of
    where
      value_of :
          (r : Option (K × V) × Dict K V)
          → IsDrawn d r
          → Safe
              (elim r.0 as (λ _. Run (V × Dict K V)) [
                | none ↦ fault null_pointer
                | some (k, v) ↦ ok (v, r.1)
              ])
              (λ r. Keeps d r.1 × ((k : K) × (view d k ≡ some r.0)))
      value_of (none, d') (keep, bare) = absurd (omega arith)
      value_of (some (k, v), d') (keep, there) =
          inr ((v, d'), refl, (keep, (k, sym (keep.same_view k) ∙ there)))
