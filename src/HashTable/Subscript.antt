-- ===== src/HashTable/Subscript.antt =====
-- `operator[]` on a valid dictionary, idle or rehashing.
use mathlib.Core.Option.{or_else}
use yeyj_tcp_server.Base.{
  ℕ, ◌+◌, ◌*◌, ◌≤◌, ◌≡◌, sym, ap, ◌∙◌, arith, Bool, false, Option, none, some, [], inl, inr, Run,
  ok, fault, null_pointer, Returns, at, at-ok, Option-cases,
}
use yeyj_tcp_server.HashTable.Assigning.{Assigns, on_place-Assigns}
use yeyj_tcp_server.HashTable.Chains.{Key, Chain, find, slot}
use yeyj_tcp_server.HashTable.Lookup.{Located, in_first, in_second}
use yeyj_tcp_server.HashTable.Methods.{insert_raw, subscript, subscript_get, subscript_set}
use yeyj_tcp_server.HashTable.Placing.{Inserts}
use yeyj_tcp_server.HashTable.Table.{Dict, Which, first, second, is_some, most_buckets, table_of}
use yeyj_tcp_server.HashTable.Valid.{view, home, IsValid, slot-lt}
use yeyj_tcp_server.HashTable.Entering.{insert_raw-IsEntered}

module _ {ℓ} {K V : Type ℓ} ⦃key : Key K⦄ where
  subscript_runs :
      (f : ℕ) (blank : V) (k : K) (d d₁ : Dict K V) (b : Bool) (t : Which)
      → insert_raw f blank k d ≡ ok (b, some t, d₁)
      → subscript f blank k d ≡ ok (t, d₁)
  unfolding subscript
  subscript_runs f blank k d d₁ b t raw = rw raw

  subscript-Located :
      (f : ℕ) (blank : V) (k : K) (d : Dict K V)
      → IsValid d
      → (d.ht0.used + d.ht1.used) * 2 ≤ most_buckets
      → Returns (subscript f blank k d) (λ r. Inserts k blank d r.1 × Located k r.1 (some r.0))
  subscript-Located f blank k d valid small =
      let ((b, place, d₁), raw, (t, at_t, i, loc, is_new)) =
        insert_raw-IsEntered f blank k d valid small in
      ((t, d₁), subscript_runs f blank k d d₁ b t (raw ∙ ap (λ p. ok (b, p, d₁)) at_t), (i, loc))

  -- `d[key] = value` on a valid dictionary with at most 2^30 entries returns; the
  -- dictionary is valid, maps the key to the value, and every other key as before, and has at most one
  -- entry more.
  pub subscript_set-Assigns :
      (f : ℕ) (blank : V) (k : K) (v : V) (d : Dict K V)
      → IsValid d
      → (d.ht0.used + d.ht1.used) * 2 ≤ most_buckets
      → Returns (subscript_set f blank k v d) (Assigns k v d)
  unfolding subscript_set
  subscript_set-Assigns f blank k v d valid small =
      let ((t, d₁), run₁, (i, loc)) = subscript-Located f blank k d valid small in
      let (d', run, (a, same_number)) = on_place-Assigns k v d₁ t i.valid loc in
      (
        d',
        rw run₁ run,
        record {
          valid = a.valid;
          here = a.here;
          others = λ q apart. a.others q apart ∙ i.others q apart;
          added = omega (arith, same_number, i.added);
          same_iterators = a.same_iterators ∙ i.same_iterators;
        },
      )

  pub Located-value :
      (k : K) (d : Dict K V) (t : Which)
      → IsValid d
      → Located k d (some t)
      → (v : V) × (at (table_of t d).table (slot k (table_of t d).sizemask)
          ≡ ok (home (table_of t d) k))
        × (find k (home (table_of t d) k) ≡ some v)
        × (view d k ≡ some v)
  unfolding view or_else
  Located-value k d first valid (in_first there wide) =
      elim (Option-cases (find k (home d.ht0 k))) [
        | inl absent ↦
            let h : is_some (find k (home d.ht0 k)) ≡ false = rw absent in absurd (cc (there, h))
        | inr (v, e) ↦ (
          v,
          at-ok d.ht0.table (slot k d.ht0.sizemask) [] (slot-lt k d.ht0 valid.placed0 wide),
          e,
          rw e,
        )
      ]
  Located-value k d second valid (in_second missing there wide) =
      elim (Option-cases (find k (home d.ht1 k))) [
        | inl absent ↦
            let h : is_some (find k (home d.ht1 k)) ≡ false = rw absent in absurd (cc (there, h))
        | inr (v, e) ↦ (
          v,
          at-ok d.ht1.table (slot k d.ht1.sizemask) [] (slot-lt k d.ht1 valid.placed1 wide),
          e,
          rw (missing, e),
        )
      ]

  get_runs :
      (f : ℕ) (blank : V) (k : K) (d d₁ : Dict K V) (t : Which) (c : Chain K V) (v : V)
      → subscript f blank k d ≡ ok (t, d₁)
      → at (table_of t d₁).table (slot k (table_of t d₁).sizemask) ≡ ok c
      → find k c ≡ some v
      → subscript_get f blank k d ≡ ok (v, d₁)
  unfolding subscript_get
  get_runs f blank k d d₁ t c v run got found = rw (run, got) (reads (find k c) found)
    where
      reads :
          (o : Option V)
          → o ≡ some v
          → elim o as (λ _. Run (V × Dict K V)) [
            | none ↦ fault null_pointer
            | some v' ↦ ok (v', d₁)
          ]
            ≡ ok (v, d₁)
      reads o h = rw h

  -- `d[key]` as a value, on a valid dictionary with at most 2^30 entries: the value of the
  -- key, or, where it has none, the blank one, which is then in the dictionary; the other keys keep
  -- their values, and there is at most one entry more.
  pub subscript_get-Inserts :
      (f : ℕ) (blank : V) (k : K) (d : Dict K V)
      → IsValid d
      → (d.ht0.used + d.ht1.used) * 2 ≤ most_buckets
      → Returns
          (subscript_get f blank k d)
          (λ r. (some r.0 ≡ or_else (view d k) (some blank)) × Inserts k blank d r.1)
  subscript_get-Inserts f blank k d valid small =
      let ((t, d₁), run₁, (i, loc)) = subscript-Located f blank k d valid small in
      let (v, got, found, seen) = Located-value k d₁ t i.valid loc in
      (
        (v, d₁),
        get_runs f blank k d d₁ t (home (table_of t d₁) k) v run₁ got found,
        (sym seen ∙ i.here, i),
      )
