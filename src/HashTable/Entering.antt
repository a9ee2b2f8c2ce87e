-- ===== src/HashTable/Entering.antt =====
-- `insertRaw` on a valid dictionary, idle or rehashing.
use mathlib.Core.Path.{subst}
use yeyj_tcp_server.Base.{
  ℕ, ◌+◌, ◌*◌, ◌≤◌, ◌<◌, ◌≡◌, refl, sym, ap, ◌∙◌, arith, Bool, true, false, not, Option, none, some,
  inl, inr, ok, Returns, Option-cases,
}
use yeyj_tcp_server.HashTable.Chains.{Key, find, equal_refl}
use yeyj_tcp_server.HashTable.Expansion.{expand_if_needed-Expanded}
use yeyj_tcp_server.HashTable.Filling.{filled, filled-finds}
use yeyj_tcp_server.HashTable.Insertion.{after-Inserts, found_same}
use yeyj_tcp_server.HashTable.Lookup.{
  Located, nowhere, in_first, in_second, walk-Located, Located-view,
}
use yeyj_tcp_server.HashTable.Methods.{walk, enter, insert_raw, on_place}
use yeyj_tcp_server.HashTable.Moves.{Keeps}
use yeyj_tcp_server.HashTable.Placing.{
  slot-as_int, push_runs, Inserts, put_first-Inserts, put_second-Inserts,
}
use yeyj_tcp_server.HashTable.Rehash.{step_if_rehashing}
use yeyj_tcp_server.HashTable.Rounds.{Keeps-trans}
use yeyj_tcp_server.HashTable.Steps.{step_if_rehashing-Keeps}
use yeyj_tcp_server.HashTable.Table.{
  Dict, Which, first, second, dict_ok, is_some, most_buckets, expand_if_needed,
}
use yeyj_tcp_server.HashTable.Valid.{view, home, IsPlaced, Mode, IsValid}

module _ {ℓ} {K V : Type ℓ} ⦃key : Key K⦄ where
  raw_found :
      (f : ℕ) (blank : V) (k : K) (d d₁ d₂ : Dict K V) (t : Which)
      → step_if_rehashing d ≡ ok d₁
      → expand_if_needed f d₁ ≡ ok (dict_ok, d₂)
      → walk k d₂ ≡ ok (some t)
      → insert_raw f blank k d ≡ ok (false, some t, d₂)
  unfolding insert_raw
  raw_found f blank k d d₁ d₂ t a b c = rw (a, b, c)

  raw_first :
      (f : ℕ) (blank : V) (k : K) (d d₁ d₂ : Dict K V)
      → step_if_rehashing d ≡ ok d₁
      → expand_if_needed f d₁ ≡ ok (dict_ok, d₂)
      → walk k d₂ ≡ ok none
      → is_some d₂.rehashidx ≡ false
      → IsPlaced d₂.ht0
      → 0 < d₂.ht0.size
      → insert_raw f blank k d ≡ ok (true, some first, record d₂ { ht0 = filled (k, blank) d₂.ht0 })
  unfolding insert_raw on_place enter
  raw_first f blank k d d₁ d₂ a b c idle p some_size =
      rw (a, b, c, idle, slot-as_int k d₂.ht0 p some_size, push_runs k blank d₂.ht0 p some_size)

  raw_second :
      (f : ℕ) (blank : V) (k : K) (d d₁ d₂ : Dict K V)
      → step_if_rehashing d ≡ ok d₁
      → expand_if_needed f d₁ ≡ ok (dict_ok, d₂)
      → walk k d₂ ≡ ok none
      → is_some d₂.rehashidx ≡ true
      → IsPlaced d₂.ht1
      → 0 < d₂.ht1.size
      → insert_raw f blank k d
        ≡ ok (true, some second, record d₂ { ht1 = filled (k, blank) d₂.ht1 })
  unfolding insert_raw on_place enter
  raw_second f blank k d d₁ d₂ a b c busy p some_size =
      rw (a, b, c, busy, slot-as_int k d₂.ht1 p some_size, push_runs k blank d₂.ht1 p some_size)

  -- The entry of `k` is in a table afterwards, with `blank` if it is new.
  abbrev pub IsEntered : K → V → Dict K V → Bool × Option Which × Dict K V → Type ℓ
  IsEntered k blank d (fresh_entry, place, d') =
      (t : Which) × (place ≡ some t)
      × Inserts k blank d d'
      × Located k d' (some t)
      × (fresh_entry ≡ not (is_some (view d k)))

  found-IsEntered :
      (blank : V) (k : K) (d d₂ : Dict K V) (t : Which)
      → Keeps d d₂
      → Located k d₂ (some t)
      → IsEntered k blank d (false, some t, d₂)
  found-IsEntered blank k d d₂ t keep loc =
      let i : Inserts k blank d₂ d₂ = record {
        valid = keep.valid;
        here = found_same (view d₂ k) blank (sym (Located-view k d₂ (some t) loc));
        others = λ q apart. refl;
        added = rw (sym (Located-view k d₂ (some t) loc)) (omega arith);
        same_iterators = refl;
      } in
      let present : is_some (view d k) ≡ true =
        ap is_some (sym (keep.same_view k)) ∙ sym (Located-view k d₂ (some t) loc) in
      (t, refl, after-Inserts k blank d d₂ d₂ keep i, loc, ap not (sym present))

  Located-IsEntered :
      (f : ℕ) (blank : V) (k : K) (d d₁ d₂ : Dict K V) (place : Option Which)
      → step_if_rehashing d ≡ ok d₁
      → expand_if_needed f d₁ ≡ ok (dict_ok, d₂)
      → walk k d₂ ≡ ok place
      → Keeps d d₂
      → 0 < d₂.ht0.size
      → Located k d₂ place
      → Returns (insert_raw f blank k d) (IsEntered k blank d)
  Located-IsEntered f blank k d d₁ d₂ (some t) a b c keep wide loc = (
    (false, some t, d₂),
    raw_found f blank k d d₁ d₂ t a b c,
    found-IsEntered blank k d d₂ t keep loc,
  )
  Located-IsEntered f blank k d d₁ d₂ none a b c keep wide (nowhere no0 no1) =
      let missing : is_some (view d k) ≡ false =
        ap is_some (sym (keep.same_view k)) ∙ sym (Located-view k d₂ none (nowhere no0 no1)) in
      elim (Option-cases d₂.rehashidx) [
        | inl idle ↦
            let h = filled (k, blank) d₂.ht0 in
            let p = keep.valid.placed0 in
            let there : is_some (find k (home h k)) ≡ true =
              rw (filled-finds (k, blank) d₂.ht0 k p wide, equal_refl k) in
            (
              (true, some first, record d₂ { ht0 = h }),
              raw_first f blank k d d₁ d₂ a b c (rw idle) p wide,
              (
                first,
                refl,
                after-Inserts k blank d d₂ (record d₂ { ht0 = h }) keep
                    (put_first-Inserts k blank d₂ keep.valid wide no0 no1 idle),
                in_first there wide,
                ap not (sym missing),
              ),
            )
        | inr (r, at_r) ↦
            let m : Mode (some r) d₂ = subst (λ o. Mode o d₂) at_r keep.valid.mode in
            let h = filled (k, blank) d₂.ht1 in
            let p = keep.valid.placed1 in
            let there : is_some (find k (home h k)) ≡ true =
              rw (filled-finds (k, blank) d₂.ht1 k p m.0.1, equal_refl k) in
            (
              (true, some second, record d₂ { ht1 = h }),
              raw_second f blank k d d₁ d₂ a b c (rw at_r) p m.0.1,
              (
                second,
                refl,
                after-Inserts k blank d d₂ (record d₂ { ht1 = h }) keep
                    (put_second-Inserts k blank r d₂ keep.valid no0 no1 at_r),
                in_second no0 there m.0.1,
                ap not (sym missing),
              ),
            )
      ]

  pub insert_raw-IsEntered :
      (f : ℕ) (blank : V) (k : K) (d : Dict K V)
      → IsValid d
      → (d.ht0.used + d.ht1.used) * 2 ≤ most_buckets
      → Returns (insert_raw f blank k d) (IsEntered k blank d)
  insert_raw-IsEntered f blank k d valid small =
      let (d₁, stepped, keep₁) = step_if_rehashing-Keeps d valid in
      let ((s, d₂), expanded, e) =
        expand_if_needed-Expanded f d₁ keep₁.valid (omega (arith, keep₁.same_size)) in
      let (keep₂, okay) = e in
      let (fine, wide) = okay in
      let (place, walked, located) = walk-Located k d₂ keep₂.valid wide in
      Located-IsEntered f blank k d d₁ d₂ place stepped
        (expanded ∙ ap (λ status. ok (status, d₂)) fine) walked (Keeps-trans d d₁ d₂ keep₁ keep₂)
        wide located
