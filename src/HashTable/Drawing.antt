-- ===== src/HashTable/Drawing.antt =====
-- `getRandomEntry` on a valid dictionary: an entry of the map, and no fault but that the results of
-- `random()` may never hit a bucket with entries.
use Prim.Native.Nat.{bit_and}
use mathlib.Core.Option.{or_else}
use mathlib.Core.Path.{subst}
use native.Mathlib.Decide.{ℕ_discrete}
use native.Mathlib.Nat.{mod-lt, mod-le}
use yeyj_tcp_server.HashTable.Steps.{step_if_rehashing-HasWork}
use yeyj_tcp_server.Base.{int_max, to_int, to_int-ok, Safe, bind-Safe}
use yeyj_tcp_server.Base.{
  int_max, to_int, to_int-ok, ℕ, zero, suc, ◌+◌, ◌-◌, ◌%◌, ◌^◌, ◌≤◌, ◌<◌, ◌≡◌, refl, ap, arith,
  true, false, Option, none, some, List, [], ◌∷◌, ◌==◌ as nat_eq, leb, inl, inr, length, get_or, ok,
  fault, endless, ◌>>=◌, Returns, at, at-ok, Bool-cases, Option-cases, bit_and-le,
}
use yeyj_tcp_server.HashTable.Chains.{Key, Chain, ◌==◌, find, slot, equal_refl}
use yeyj_tcp_server.HashTable.Lookup.{sized}
use yeyj_tcp_server.HashTable.Moves.{Keeps}
use yeyj_tcp_server.HashTable.Rounds.{Keeps-refl}
use yeyj_tcp_server.HashTable.Random.{pick_bucket, draw_bucket, get_random_entry}
use yeyj_tcp_server.HashTable.Table.{Dict, is_null, size}
use yeyj_tcp_server.HashTable.Valid.{
  entries, more_buckets, count, count-find, home, view, Mode, IsValid,
}

module _ {ℓ} {K V : Type ℓ} ⦃key : Key K⦄ where
  -- `(k, v)` is an entry of a chain.
  abbrev HasEntry : K × V → Chain K V → Type ℓ
  HasEntry e c = (i : ℕ) × (at c i ≡ ok e)

  pub entry-count : (k : K) (v : V) (c : Chain K V) (i : ℕ) → at c i ≡ ok (k, v) → 0 < count k c
  unfolding count at
  entry-count k v [] i h = absurd (cc h)
  entry-count k v (e ∷ c) zero h =
      let same : e.0 ≡ k = cc h in
      let test : (k == e.0) ≡ true = rw same (equal_refl k) in rw test (omega arith)
  entry-count k v (e ∷ c) (suc i) h = omega (arith, entry-count k v c i h)

  -- The only entry of a key is the one that is found.
  entry-find :
      (k : K) (v : V) (c : Chain K V) (i : ℕ)
      → at c i ≡ ok (k, v)
      → count k c ≤ 1
      → find k c ≡ some v
  unfolding count at find
  entry-find k v [] i h once = absurd (cc h)
  entry-find k v (e ∷ c) zero h once =
      let same : e.0 ≡ k = cc h in
      let value : e.1 ≡ v = cc h in
      let test : (k == e.0) ≡ true = rw same (equal_refl k) in rw test (ap (λ x. some x) value)
  entry-find k v (e ∷ c) (suc i) h once = elim (Bool-cases (k == e.0)) [
    | inl same ↦
        let once' : count k c + 1 ≤ 1 = rw same at once in
        absurd (omega (arith, entry-count k v c i h))
    | inr apart ↦
        let once' : count k c + 0 ≤ 1 = rw apart at once in
        rw apart (entry-find k v c i h (omega arith))
  ]

  -- A chain is not longer than its table has entries.
  pub bucket-entries : (t : List (Chain K V)) (h : ℕ) → length (get_or t h []) ≤ entries t
  unfolding entries
  bucket-entries [] h = omega arith
  bucket-entries (c ∷ t) zero = omega arith
  bucket-entries (c ∷ t) (suc h) = omega (arith, bucket-entries t h)

  -- An entry of the first table is in its bucket, and the map has it.
  first-view :
      (k : K) (v : V) (h i : ℕ) (d : Dict K V)
      → IsValid d
      → at (get_or d.ht0.table h []) i ≡ ok (k, v)
      → view d k ≡ some v
  unfolding view or_else
  first-view k v h i d valid e = elim (ℕ_discrete h (slot k d.ht0.sizemask)) [
    | no ne ↦
        absurd
          (omega (arith, valid.placed0.homes k h ne, entry-count k v (get_or d.ht0.table h []) i e))
    | yes same ↦
        let e' : at (home d.ht0 k) i ≡ ok (k, v) = rw same at e in
        rw (entry-find k v (home d.ht0 k) i e' (omega (arith, valid.once k)))
  ]

  second-view :
      (k : K) (v : V) (h i : ℕ) (d : Dict K V)
      → IsValid d
      → at (get_or d.ht1.table h []) i ≡ ok (k, v)
      → view d k ≡ some v
  unfolding view or_else
  second-view k v h i d valid e = elim (ℕ_discrete h (slot k d.ht1.sizemask)) [
    | no ne ↦
        absurd
          (omega (arith, valid.placed1.homes k h ne, entry-count k v (get_or d.ht1.table h []) i e))
    | yes same ↦
        let e' : at (home d.ht1 k) i ≡ ok (k, v) = rw same at e in
        let some_there = entry-count k v (home d.ht1 k) i e' in
        let missing : find k (home d.ht0 k) ≡ none =
          count-find k (home d.ht0 k) (omega (arith, valid.once k)) in
        rw (missing, entry-find k v (home d.ht1 k) i e' (omega (arith, valid.once k)))
  ]

  -- The index of the rehash is in the first table while that has entries.
  pub first_inside :
      (idx : ℕ) (d : Dict K V)
      → IsValid d
      → d.rehashidx ≡ some idx
      → 0 < d.ht0.used
      → idx < d.ht0.size
  first_inside idx d valid at_idx left =
      let m : Mode (some idx) d = subst (λ o. Mode o d) at_idx valid.mode in
      omega (
        arith,
        more_buckets d.ht0.table idx m.1 (omega (arith, valid.placed0.counted)),
        valid.placed0.width,
      )

  -- A chain that is not longer than the dictionary has entries, and all of whose entries are in the
  -- map.
  abbrev IsBucket : Dict K V → Chain K V → Type ℓ
  IsBucket d c =
      (length c ≤ d.ht0.used + d.ht1.used)
      × ((k : K) (v : V) (i : ℕ) → at c i ≡ ok (k, v) → view d k ≡ some v)

  -- Each result of `random()` gives a bucket of the dictionary.
  pick_bucket-IsBucket :
      (r : ℕ) (d : Dict K V)
      → IsValid d
      → 0 < d.ht0.size
      → ((idx : ℕ) → d.rehashidx ≡ some idx → idx < d.ht0.size)
      → Returns (pick_bucket d r) (IsBucket d)
  unfolding pick_bucket
  pick_bucket-IsBucket r d valid wide inside = elim (Option-cases d.rehashidx) [
    | inl idle ↦
        let h = bit_and r d.ht0.sizemask in
        let lt : h < length d.ht0.table =
          omega
            (arith, bit_and-le r d.ht0.sizemask, valid.placed0.mask wide, valid.placed0.width) in
        (
          get_or d.ht0.table h [],
          rw (idle, at-ok d.ht0.table h [] lt),
          (
            omega (arith, bucket-entries d.ht0.table h, valid.placed0.counted),
            λ k v i e. first-view k v h i d valid e,
          ),
        )
    | inr (idx, at_idx) ↦
        let left = d.ht0.size + d.ht1.size - idx in
        let lt : r % left < left = mod-lt r (omega (arith, inside idx at_idx)) in
        let h = (idx + r % left) % 2 ^ 32 in
        let le : h ≤ idx + r % left = mod-le (idx + r % left) (2 ^ 32) in
        elim (Bool-cases (leb d.ht0.size h)) [
          | inl above ↦
              let ge : d.ht0.size ≤ h = ground arith in
              let lt' : h - d.ht0.size < length d.ht1.table =
                omega (arith, valid.placed1.width, inside idx at_idx) in
              (
                get_or d.ht1.table (h - d.ht0.size) [],
                rw (at_idx, above, at-ok d.ht1.table (h - d.ht0.size) [] lt'),
                (
                  omega (arith, bucket-entries d.ht1.table (h - d.ht0.size), valid.placed1.counted),
                  λ k v i e. second-view k v (h - d.ht0.size) i d valid e,
                ),
              )
          | inr below ↦
              let lt' : h < length d.ht0.table = ground (arith, valid.placed0.width) in
              (
                get_or d.ht0.table h [],
                rw (at_idx, below, at-ok d.ht0.table h [] lt'),
                (
                  omega (arith, bucket-entries d.ht0.table h, valid.placed0.counted),
                  λ k v i e. first-view k v h i d valid e,
                ),
              )
        ]
  ]

  not_null : (c : Chain K V) → is_null c ≡ false → 0 < length c
  not_null [] h = absurd (cc h)
  not_null (e ∷ c) h = omega arith

  -- Where each result of `random()` gives a bucket of the dictionary, the loop ends in one that is
  -- not null, unless there is none among the results.
  draw_bucket-IsBucket :
      (rs : List ℕ) (d : Dict K V)
      → ((r : ℕ) → Returns (pick_bucket d r) (IsBucket d))
      → Safe (draw_bucket rs d) (λ r. IsBucket d r.0 × (0 < length r.0))
  unfolding draw_bucket
  draw_bucket-IsBucket [] d buckets = inl refl
  draw_bucket-IsBucket (r ∷ rs) d buckets =
      let (c, run, is_bucket) = buckets r in
      elim (Bool-cases (is_null c)) [
        | inl null ↦ rw (run, null) (draw_bucket-IsBucket rs d buckets)
        | inr full ↦ inr ((c, rs), rw (run, full), (is_bucket, not_null c full))
      ]

  -- What `getRandomEntry` gives: an entry of the map, or null where there is none.
  abbrev pub IsDrawn : Dict K V → Option (K × V) × Dict K V → Type ℓ
  IsDrawn d (none, d') = Keeps d d' × (size d ≡ 0)
  IsDrawn d (some (k, v), d') = Keeps d d' × (view d' k ≡ some v)

  IsDrawn-entry :
      (d d' : Dict K V) (c : Chain K V) (rs : List ℕ)
      → Keeps d d'
      → IsBucket d' c
      → 0 < length c
      → d'.ht0.used + d'.ht1.used ≤ int_max
      → Safe
          (elim rs [
            | [] ↦ fault endless
            | r ∷ rest ↦
                to_int (length c) >>= λ listlen. at c (r % listlen) >>= λ e. ok (some e, d')
          ])
          (IsDrawn d)
  IsDrawn-entry d d' c [] keep is_bucket full few = inl refl
  IsDrawn-entry d d' [] (r ∷ rs) keep is_bucket full few = absurd (omega arith)
  IsDrawn-entry d d' (x ∷ c) (r ∷ rs) keep (short, is_bucket) full few =
      let i = r % length (x ∷ c) in
      let e = get_or (x ∷ c) i x in
      let got = at-ok (x ∷ c) i x (mod-lt r full) in
      let len = to_int-ok (length (x ∷ c)) (omega (arith, short)) in
      inr ((some e, d'), rw (len, got), (keep, is_bucket e.0 e.1 i got))

  -- `getRandomEntry()` of a valid dictionary without iterators, for every list of results of
  -- `random()`, where an `int` holds the number of its entries: unless the list is used up, it returns
  -- an entry of the map, or the null pointer where there is none; the dictionary stays valid, and maps
  -- every key as before.
  pub get_random_entry-IsDrawn :
      (draws : List ℕ) (d : Dict K V)
      → IsValid d
      → d.iterators ≡ 0
      → d.ht0.used + d.ht1.used ≤ int_max
      → Safe (get_random_entry draws d) (IsDrawn d)
  unfolding get_random_entry size
  get_random_entry-IsDrawn draws d valid free few = elim (ℕ_discrete (size d) 0) [
    | yes nothing ↦
        let test : nat_eq (size d) 0 ≡ true = ground arith in
        inr ((none, d), rw test, (Keeps-refl d valid, nothing))
    | no some_there ↦
        let test : nat_eq (size d) 0 ≡ false = ground arith in
        let (d', stepped, (keep, work)) = step_if_rehashing-HasWork d valid in
        let wide = sized d' keep.valid (omega (arith, keep.same_size)) in
        let inside : (idx : ℕ) → d'.rehashidx ≡ some idx → idx < d'.ht0.size =
          λ idx at_idx. first_inside idx d' keep.valid at_idx (work free idx at_idx) in
        rw (test, stepped)
          (bind-Safe (draw_bucket draws d') _
            (draw_bucket-IsBucket draws d' (λ r. pick_bucket-IsBucket r d' keep.valid wide inside))
            (λ (c, rs) (is_bucket, full).
              IsDrawn-entry d d' c rs keep is_bucket full (omega (arith, keep.same_size))))
  ]
