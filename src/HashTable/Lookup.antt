-- ===== src/HashTable/Lookup.antt =====
-- `exist` on a valid dictionary, idle or rehashing: it agrees with the map.
use mathlib.Core.Option.{or_else}
use mathlib.Core.Path.{subst}
use native.Mathlib.Decide.{ℕ_discrete}
use yeyj_tcp_server.Base.{
  ◌≢◌, ◌%◌, ◌^◌, ◌+◌, ◌<◌, ◌≡◌, refl, sym, ap, ◌∙◌, ◌⊎◌, arith, true, false, Option, none, some,
  List, [], ◌∷◌, inl, inr, length, Returns, at-ok, ◌==◌ as nat_eq,
}
use yeyj_tcp_server.HashTable.Chains.{Key, Chain, find, slot}
use yeyj_tcp_server.HashTable.Methods.{walk, exist}
use yeyj_tcp_server.HashTable.Moves.{Keeps}
use yeyj_tcp_server.HashTable.Rounds.{Keeps-refl}
use yeyj_tcp_server.HashTable.Steps.{option_cases, step_if_rehashing-Keeps}
use yeyj_tcp_server.HashTable.Table.{Dictht, Dict, Which, first, second, is_some, empty, size}
use yeyj_tcp_server.HashTable.Valid.{
  entries, no_entries, home, view, IsPlaced, Mode, IsValid, slot-lt,
}

some_cases {ℓ} : {A : Type ℓ} (o : Option A) → (is_some o ≡ true) ⊎ (o ≡ none)
some_cases none = inr refl
some_cases (some a) = inl refl

pub some_left {ℓ} :
    {A : Type ℓ} (o o' : Option A) → is_some o ≡ true → is_some (or_else o o') ≡ true
unfolding or_else
some_left (some a) o' h = refl
some_left none o' h = absurd (cc h)

module _ {ℓ} {K V : Type ℓ} ⦃key : Key K⦄ where
  -- A valid dictionary without entries maps no key.
  pub empty-view :
      (d : Dict K V) (q : K) → IsValid d → d.ht0.used + d.ht1.used ≡ 0 → view d q ≡ none
  unfolding view find or_else
  empty-view d q v h =
      let null0 =
        no_entries d.ht0.table (slot q d.ht0.sizemask) (omega (arith, v.placed0.counted)) in
      let null1 =
        no_entries d.ht1.table (slot q d.ht1.sizemask) (omega (arith, v.placed1.counted)) in
      rw (null0, null1)

  pub unsized : (h : Dictht K V) → IsPlaced h → h.size ≡ 0 → h.used ≡ 0
  unfolding entries
  unsized h p none_there = p.counted ∙ no_buckets h.table (p.width ∙ none_there)
    where
      no_buckets : (t : List (Chain K V)) → length t ≡ 0 → entries t ≡ 0
      no_buckets [] e = refl
      no_buckets (c ∷ t) e = absurd (omega arith)

  -- Only a dictionary without entries is without a first table.
  pub sized : (d : Dict K V) → IsValid d → 0 < d.ht0.used + d.ht1.used → 0 < d.ht0.size
  sized d v some_there = elim (option_cases d.rehashidx) [
    | inr (r, at_r) ↦ let m : Mode (some r) d = subst (λ o. Mode o d) at_r v.mode in m.0.0
    | inl idle ↦
        let m : Mode none d = subst (λ o. Mode o d) idle v.mode in
        elim (ℕ_discrete d.ht0.size 0) [
          | no ne ↦ omega arith
          | yes e ↦ absurd (omega (arith, unsized d.ht0 v.placed0 e, unsized d.ht1 v.placed1 m.1))
        ]
  ]

  -- Where the walk for `k` ends.
  pub data Located (k : K) (d : Dict K V) : Option Which → Type ℓ where
    nowhere : find k (home d.ht0 k) ≡ none → find k (home d.ht1 k) ≡ none → Located k d none
    in_first : is_some (find k (home d.ht0 k)) ≡ true → 0 < d.ht0.size → Located k d (some first)
    in_second :
        find k (home d.ht0 k) ≡ none
        → is_some (find k (home d.ht1 k)) ≡ true
        → 0 < d.ht1.size
        → Located k d (some second)

  pub walk-Located :
      (k : K) (d : Dict K V)
      → IsValid d
      → 0 < d.ht0.size
      → Returns (walk k d) (λ place. Located k d place)
  unfolding walk find
  walk-Located k d v some_size =
      let get0 =
        at-ok d.ht0.table (slot k d.ht0.sizemask) [] (slot-lt k d.ht0 v.placed0 some_size) in
      elim (some_cases (find k (home d.ht0 k))) [
        | inl here ↦ (some first, rw (get0, here), in_first here some_size)
        | inr absent ↦ elim (option_cases d.rehashidx) [
          | inl idle ↦
              let m : Mode none d = subst (λ o. Mode o d) idle v.mode in
              let resting : is_some d.rehashidx ≡ false = rw idle in
              let alone : find k (home d.ht1 k) ≡ none = rw (m.0) in
              (none, rw (get0, absent, resting), nowhere absent alone)
          | inr (r, at_r) ↦
              let m : Mode (some r) d = subst (λ o. Mode o d) at_r v.mode in
              let rehashing : is_some d.rehashidx ≡ true = rw at_r in
              let get1 =
                at-ok d.ht1.table (slot k d.ht1.sizemask) [] (slot-lt k d.ht1 v.placed1 m.0.1) in
              elim (some_cases (find k (home d.ht1 k))) [
                | inl here ↦ (
                  some second,
                  rw (get0, absent, rehashing, get1, here),
                  in_second absent here m.0.1,
                )
                | inr missing ↦
                    (none, rw (get0, absent, rehashing, get1, missing), nowhere absent missing)
              ]
        ]
      ]

  pub Located-view :
      (k : K) (d : Dict K V) (place : Option Which)
      → Located k d place
      → is_some place ≡ is_some (view d k)
  unfolding view or_else
  Located-view k d none (nowhere a b) = rw (a, b)
  Located-view k d (some first) (in_first a s) =
      sym (some_left (find k (home d.ht0 k)) (find k (home d.ht1 k)) a)
  Located-view k d (some second) (in_second a b s) = rw (a, b)

  -- `exist(key)` on a valid dictionary of fewer than 2 ^ 32 entries returns whether the dictionary maps the key to a value, and
  -- leaves a valid dictionary with the same map and as many entries.
  pub exist-view :
      (k : K) (d : Dict K V)
      → IsValid d
      → d.ht0.used + d.ht1.used < 2 ^ 32
      → Returns (exist k d) (λ res. (res.0 ≡ is_some (view d k)) × Keeps d res.1)
  unfolding exist empty size
  exist-view k d v few = elim (ℕ_discrete (d.ht0.used + d.ht1.used) 0) [
    | yes e ↦ ((false, d), rw e, (rw (empty-view d k v e), Keeps-refl d v))
    | no ne ↦
        let some_there : (d.ht0.used + d.ht1.used) % 2 ^ 32 ≢ 0 = λ h. ne (omega arith) in
        let there : nat_eq ((d.ht0.used + d.ht1.used) % 2 ^ 32) 0 ≡ false = ground arith in
        let (d', run, keep) = step_if_rehashing-Keeps d v in
        let (place, found, located) =
          walk-Located k d' keep.valid (sized d' keep.valid (omega (arith, keep.same_size))) in
        (
          (is_some place, d'),
          rw (there, run, found),
          (Located-view k d' place located ∙ ap is_some (keep.same_view k), keep),
        )
  ]
