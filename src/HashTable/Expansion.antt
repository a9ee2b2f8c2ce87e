-- ===== src/HashTable/Expansion.antt =====
-- `expandIfNeeded` on a valid dictionary: the map stays, and there is a table to insert into.
use mathlib.Core.Path.{subst}
use native.Mathlib.Decide.{ℕ_discrete, dec_lt}
use native.Mathlib.Nat.{div-eq_of_lt}
use yeyj_tcp_server.Base.{
  ℕ, zero, suc, ◌-◌, ◌*◌, ◌/◌, ◌≤◌, ◌<◌, ◌≡◌, refl, sym, ◌∙◌, arith, true, false, none, some, List,
  [], ◌∷◌, Bool-cases, inl, inr, length, replicate, length-replicate, Returns, ltb, ◌==◌ as nat_eq,
}
use yeyj_tcp_server.HashTable.Chains.{Key, find, slot}
use yeyj_tcp_server.HashTable.Lookup.{unsized}
use yeyj_tcp_server.HashTable.Moves.{Keeps}
use yeyj_tcp_server.HashTable.Rounds.{Keeps-refl}
use yeyj_tcp_server.HashTable.Sizes.{next_power_lem, next_power-le}
use yeyj_tcp_server.HashTable.Steps.{option_cases}
use yeyj_tcp_server.HashTable.Table.{
  Dict, dict_ok, Status, is_some, is_null, fresh, expand, expand_if_needed, most_buckets, init_size,
}
use yeyj_tcp_server.HashTable.Valid.{
  entries, no_entries, count, home, view, IsPlaced, Mode, IsValid,
}

entries-replicate {ℓ} : (A : Type ℓ) (n : ℕ) → entries {A = A} (replicate n []) ≡ 0
unfolding entries
entries-replicate A zero = refl
entries-replicate A (suc n) = omega (arith, entries-replicate A n)

null_of_length {ℓ} : {A : Type ℓ} (t : List A) → length t ≡ 0 → t ≡ []
null_of_length [] e = refl
null_of_length (x ∷ t) e = absurd (omega arith)

not_null {ℓ} : {A : Type ℓ} (t : List A) → 0 < length t → is_null t ≡ false
not_null [] h = absurd (omega arith)
not_null (x ∷ t) h = refl

module _ {ℓ} {K V : Type ℓ} ⦃key : Key K⦄ where
  fresh-home : (n : ℕ) (q : K) → home {K = K} {V = V} (fresh n) q ≡ []
  fresh-home n q = no_entries (replicate n []) (slot q (n - 1)) (entries-replicate (K × V) n)

  fresh-IsPlaced : (n : ℕ) → n ≤ most_buckets → IsPlaced {K = K} {V = V} (fresh n)
  unfolding count
  fresh-IsPlaced n small = record {
    width = length-replicate n [];
    within = small;
    mask = λ h. omega arith;
    counted = sym (entries-replicate (K × V) n);
    homes = λ q i ne. rw (no_entries (replicate n []) i (entries-replicate (K × V) n));
  }

  first_table-Keeps :
      (n : ℕ) (d : Dict K V)
      → IsValid d
      → d.rehashidx ≡ none
      → d.ht0.table ≡ []
      → d.ht0.used ≡ 0
      → n ≤ most_buckets
      → Keeps d (record d { ht0 = fresh n })
  unfolding view count find
  first_table-Keeps n d v idle bare unused small =
      let m : Mode none d = subst (λ o. Mode o d) idle v.mode in
      record {
        valid = record {
          placed0 = fresh-IsPlaced n small;
          placed1 = v.placed1;
          once = λ q. rw (fresh-home n q) (omega (arith, v.once q));
          mode = subst (λ o. Mode o (record d { ht0 = fresh n })) (sym idle) m;
        };
        same_view = λ q. rw (fresh-home n q, bare);
        same_size = omega arith;
        same_iterators = refl;
      }

  second_table-Keeps :
      (n : ℕ) (d : Dict K V)
      → IsValid d
      → d.rehashidx ≡ none
      → 0 < d.ht0.size
      → 0 < n
      → n ≤ most_buckets
      → Keeps d (record d { ht1 = fresh n; rehashidx = some 0 })
  unfolding view count find
  second_table-Keeps n d v idle some_size wide small =
      let m : Mode none d = subst (λ o. Mode o d) idle v.mode in
      record {
        valid = record {
          placed0 = v.placed0;
          placed1 = fresh-IsPlaced n small;
          once = λ q. rw (fresh-home n q) (omega (arith, v.once q));
          mode = ((some_size, wide), λ i lt. absurd (omega arith));
        };
        same_view = λ q. rw (fresh-home n q, m.0);
        same_size = omega (arith, unsized d.ht1 v.placed1 m.1);
        same_iterators = refl;
      }

  -- What `expandIfNeeded` returns.
  abbrev pub Expanded : Dict K V → Status × Dict K V → Type ℓ
  Expanded d (s, d') = Keeps d d' × ((s ≡ dict_ok) × (0 < d'.ht0.size))

  pub expand_if_needed-Expanded :
      (f : ℕ) (d : Dict K V)
      → IsValid d
      → d.ht0.used * 2 ≤ most_buckets
      → Returns (expand_if_needed f d) (Expanded d)
  unfolding expand_if_needed expand
  expand_if_needed-Expanded f d v small = elim (option_cases d.rehashidx) [
    | inr (r, at_r) ↦
        let m : Mode (some r) d = subst (λ o. Mode o d) at_r v.mode in
        let busy : is_some d.rehashidx ≡ true = rw at_r in
        ((dict_ok, d), rw busy, (Keeps-refl d v, (refl, m.0.0)))
    | inl idle ↦
        let calm : is_some d.rehashidx ≡ false = rw idle in
        elim (ℕ_discrete d.ht0.size 0) [
          | yes e ↦
              let zero_size : nat_eq d.ht0.size 0 ≡ true = ground arith in
              let unused = unsized d.ht0 v.placed0 e in
              let bare = null_of_length d.ht0.table (v.placed0.width ∙ e) in
              let (r, run, (fits, least, above)) = next_power_lem init_size (omega arith) in
              let few : ltb init_size d.ht0.used ≡ false = ground arith in
              let new_size : nat_eq r d.ht0.size ≡ false = ground arith in
              let null : is_null d.ht0.table ≡ true = rw bare in
              (
                (dict_ok, record d { ht0 = fresh r }),
                rw (calm, zero_size, run, few, new_size, null),
                (
                  first_table-Keeps r d v idle bare unused
                      (next_power-le init_size r (omega arith) run),
                  (refl, omega arith),
                ),
              )
          | no ne ↦
              let has_size : nat_eq d.ht0.size 0 ≡ false = ground arith in
              elim (Bool-cases (ltb f (d.ht0.used / d.ht0.size))) [
                | inr light ↦ (
                  (dict_ok, d),
                  rw (calm, has_size, light),
                  (Keeps-refl d v, (refl, omega arith)),
                )
                | inl heavy ↦
                    let (r, run, (fits, least, above)) =
                      next_power_lem (d.ht0.used * 2) (omega (arith, small)) in
                    let few : ltb (d.ht0.used * 2) d.ht0.used ≡ false = ground arith in
                    let loaded : d.ht0.size ≤ d.ht0.used = elim (dec_lt d.ht0.used d.ht0.size) [
                      | no ge ↦ omega arith
                      | yes lt ↦
                          let light : d.ht0.used / d.ht0.size ≡ 0 = div-eq_of_lt lt in
                          absurd (ground arith)
                    ] in
                    let new_size : nat_eq r d.ht0.size ≡ false = ground arith in
                    let there = not_null d.ht0.table (omega (arith, v.placed0.width)) in
                    (
                      (dict_ok, record d { ht1 = fresh r; rehashidx = some 0 }),
                      rw (calm, has_size, heavy, run, few, new_size, there),
                      (
                        second_table-Keeps r d v idle (omega arith) (omega arith)
                            (next_power-le (d.ht0.used * 2) r small run),
                        (refl, omega arith),
                      ),
                    )
              ]
        ]
  ]
