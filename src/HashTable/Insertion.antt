-- ===== src/HashTable/Insertion.antt =====
-- `insert` on a valid dictionary, idle or rehashing: it adds the key to the map, or refuses.
use mathlib.Core.Option.{or_else}
use mathlib.Core.Path.{subst}
use yeyj_tcp_server.Base.{
  ℕ, ◌+◌, ◌*◌, ◌≤◌, ◌<◌, ◌≡◌, refl, sym, ap, ◌∙◌, arith, true, false, Option, none, some,
  if◌then◌else◌, inl, inr, ok, Returns,
}
use yeyj_tcp_server.HashTable.Chains.{Key}
use yeyj_tcp_server.HashTable.Expansion.{expand_if_needed-Expanded}
use yeyj_tcp_server.HashTable.Filling.{filled}
use yeyj_tcp_server.HashTable.Lookup.{Located, nowhere, walk-Located, Located-view}
use yeyj_tcp_server.HashTable.Methods.{enter, walk, insert_raw, insert, on_place}
use yeyj_tcp_server.HashTable.Moves.{Keeps}
use yeyj_tcp_server.HashTable.Rounds.{Keeps-trans}
use yeyj_tcp_server.HashTable.Rehash.{step_if_rehashing}
use yeyj_tcp_server.HashTable.Steps.{option_cases, step_if_rehashing-Keeps}
use yeyj_tcp_server.HashTable.Table.{
  Dict, Which, Status, dict_ok, dict_err, is_some, most_buckets, expand_if_needed,
}
use yeyj_tcp_server.HashTable.Valid.{view, IsPlaced, Mode, IsValid}
use yeyj_tcp_server.HashTable.Placing.{
  slot-as_int, push_runs, assign_runs, Inserts, put_first-Inserts, put_second-Inserts,
}

pub found_same {ℓ} : {A : Type ℓ} (o : Option A) (v : A) → is_some o ≡ true → o ≡ or_else o (some v)
unfolding or_else
found_same none v h = absurd (cc h)
found_same (some a) v h = refl

module _ {ℓ} {K V : Type ℓ} ⦃key : Key K⦄ where
  insert_found :
      (f : ℕ) (blank : V) (k : K) (v : V) (d d₁ d₂ : Dict K V) (t : Which)
      → step_if_rehashing d ≡ ok d₁
      → expand_if_needed f d₁ ≡ ok (dict_ok, d₂)
      → walk k d₂ ≡ ok (some t)
      → insert f blank k v d ≡ ok (dict_err, d₂)
  unfolding insert insert_raw
  insert_found f blank k v d d₁ d₂ t a b c = rw (a, b, c)

  insert_first :
      (f : ℕ) (blank : V) (k : K) (v : V) (d d₁ d₂ : Dict K V)
      → step_if_rehashing d ≡ ok d₁
      → expand_if_needed f d₁ ≡ ok (dict_ok, d₂)
      → walk k d₂ ≡ ok none
      → is_some d₂.rehashidx ≡ false
      → IsPlaced d₂.ht0
      → 0 < d₂.ht0.size
      → insert f blank k v d ≡ ok (dict_ok, record d₂ { ht0 = filled (k, v) d₂.ht0 })
  unfolding insert insert_raw on_place enter
  insert_first f blank k v d d₁ d₂ a b c idle p some_size = rw (
    a,
    b,
    c,
    idle,
    slot-as_int k d₂.ht0 p some_size,
    push_runs k blank d₂.ht0 p some_size,
    assign_runs k blank v d₂.ht0 p some_size,
  )

  insert_second :
      (f : ℕ) (blank : V) (k : K) (v : V) (d d₁ d₂ : Dict K V)
      → step_if_rehashing d ≡ ok d₁
      → expand_if_needed f d₁ ≡ ok (dict_ok, d₂)
      → walk k d₂ ≡ ok none
      → is_some d₂.rehashidx ≡ true
      → IsPlaced d₂.ht1
      → 0 < d₂.ht1.size
      → insert f blank k v d ≡ ok (dict_ok, record d₂ { ht1 = filled (k, v) d₂.ht1 })
  unfolding insert insert_raw on_place enter
  insert_second f blank k v d d₁ d₂ a b c busy p some_size = rw (
    a,
    b,
    c,
    busy,
    slot-as_int k d₂.ht1 p some_size,
    push_runs k blank d₂.ht1 p some_size,
    assign_runs k blank v d₂.ht1 p some_size,
  )

  pub after-Inserts :
      (k : K) (v : V) (d d₂ d' : Dict K V) → Keeps d d₂ → Inserts k v d₂ d' → Inserts k v d d'
  after-Inserts k v d d₂ d' keep i = record {
    valid = i.valid;
    here = rw (← keep.same_view k) i.here;
    others = λ q apart. i.others q apart ∙ keep.same_view q;
    added = rw (← keep.same_view k) (omega (arith, i.added, keep.same_size));
    same_iterators = i.same_iterators ∙ keep.same_iterators;
  }

  -- What `insert` returns, and leaves.
  abbrev pub Inserted : K → V → Dict K V → Status × Dict K V → Type ℓ
  Inserted k v d (s, d') =
      Inserts k v d d' × (s ≡ (if is_some (view d k) then dict_err else dict_ok))

  found-Inserted :
      (k : K) (v : V) (d d₂ : Dict K V)
      → Keeps d d₂
      → is_some (view d₂ k) ≡ true
      → Inserted k v d (dict_err, d₂)
  found-Inserted k v d d₂ keep there =
      let before : is_some (view d k) ≡ true = rw (← keep.same_view k) there in
      let i : Inserts k v d₂ d₂ = record {
        valid = keep.valid;
        here = found_same (view d₂ k) v there;
        others = λ q apart. refl;
        added = rw there (omega arith);
        same_iterators = refl;
      } in
      (after-Inserts k v d d₂ d₂ keep i, rw before)

  new-Inserted :
      (k : K) (v : V) (d d₂ d' : Dict K V)
      → Keeps d d₂
      → is_some (view d₂ k) ≡ false
      → Inserts k v d₂ d'
      → Inserted k v d (dict_ok, d')
  new-Inserted k v d d₂ d' keep missing i =
      let before : is_some (view d k) ≡ false = rw (← keep.same_view k) missing in
      (after-Inserts k v d d₂ d' keep i, rw before)

  Located-Inserted :
      (f : ℕ) (blank : V) (k : K) (v : V) (d d₁ d₂ : Dict K V) (place : Option Which)
      → step_if_rehashing d ≡ ok d₁
      → expand_if_needed f d₁ ≡ ok (dict_ok, d₂)
      → walk k d₂ ≡ ok place
      → Keeps d d₂
      → 0 < d₂.ht0.size
      → Located k d₂ place
      → Returns (insert f blank k v d) (Inserted k v d)
  Located-Inserted f blank k v d d₁ d₂ (some t) a b c keep wide loc = (
    (dict_err, d₂),
    insert_found f blank k v d d₁ d₂ t a b c,
    found-Inserted k v d d₂ keep (sym (Located-view k d₂ (some t) loc)),
  )
  Located-Inserted f blank k v d d₁ d₂ none a b c keep wide (nowhere no0 no1) =
      let missing = sym (Located-view k d₂ none (nowhere no0 no1)) in
      elim (option_cases d₂.rehashidx) [
        | inl idle ↦
            let d' = record d₂ { ht0 = filled (k, v) d₂.ht0 } in
            (
              (dict_ok, d'),
              insert_first f blank k v d d₁ d₂ a b c (rw idle) keep.valid.placed0 wide,
              new-Inserted k v d d₂ d' keep missing
                  (put_first-Inserts k v d₂ keep.valid wide no0 no1 idle),
            )
        | inr (r, at_r) ↦
            let m : Mode (some r) d₂ = subst (λ o. Mode o d₂) at_r keep.valid.mode in
            let d' = record d₂ { ht1 = filled (k, v) d₂.ht1 } in
            (
              (dict_ok, d'),
              insert_second f blank k v d d₁ d₂ a b c (rw at_r) keep.valid.placed1 m.0.1,
              new-Inserted k v d d₂ d' keep missing
                  (put_second-Inserts k v r d₂ keep.valid no0 no1 at_r),
            )
      ]

  -- `insert(key, value)` on a valid dictionary, with at most 2^30 entries, returns;
  -- afterwards the dictionary is valid, maps every other key as before, and maps the key to what
  -- it did, with DICT_ERR, or to the value if it was not there, with DICT_OK.
  pub insert-Inserted :
      (f : ℕ) (blank : V) (k : K) (v : V) (d : Dict K V)
      → IsValid d
      → (d.ht0.used + d.ht1.used) * 2 ≤ most_buckets
      → Returns (insert f blank k v d) (Inserted k v d)
  insert-Inserted f blank k v d valid small =
      let (d₁, stepped, keep₁) = step_if_rehashing-Keeps d valid in
      let ((s, d₂), expanded, e) =
        expand_if_needed-Expanded f d₁ keep₁.valid (omega (arith, keep₁.same_size)) in
      let (keep₂, okay) = e in
      let (fine, wide) = okay in
      let (place, walked, located) = walk-Located k d₂ keep₂.valid wide in
      Located-Inserted f blank k v d d₁ d₂ place stepped
        (expanded ∙ ap (λ status. ok (status, d₂)) fine) walked (Keeps-trans d d₁ d₂ keep₁ keep₂)
        wide located
