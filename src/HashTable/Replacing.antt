-- ===== src/HashTable/Replacing.antt =====
-- `replace` on a valid dictionary: what it does to a new key, and to one that is there.
use yeyj_tcp_server.Base.{
  ◌⊎◌, inl, inr, Bool-cases, Run, ℕ, ◌+◌, ◌*◌, ◌≤◌, ◌≡◌, sym, ap, ◌∙◌, arith, Bool, true, false,
  not, some, if◌then◌else◌, ok, fault, dangling, at,
}
use yeyj_tcp_server.HashTable.Assigning.{Assigns, on_place-Assigns}
use yeyj_tcp_server.HashTable.Chains.{Key, Chain, find, has_next, slot, set_value}
use yeyj_tcp_server.HashTable.Entering.{insert_raw-IsEntered}
use yeyj_tcp_server.HashTable.Insertion.{found_same}
use yeyj_tcp_server.HashTable.Methods.{insert_raw, on_place, replace}
use yeyj_tcp_server.HashTable.Subscript.{Located-value}
use yeyj_tcp_server.HashTable.Table.{Dict, Which, is_some, most_buckets, table_of}
use yeyj_tcp_server.HashTable.Valid.{home, view, IsValid}

module _ {ℓ} {K V : Type ℓ} ⦃key : Key K⦄ where
  replace_runs :
      (f : ℕ) (blank : V) (k : K) (v : V) (d d₁ d' : Dict K V) (b : Bool) (t : Which)
      (c : Chain K V)
      → insert_raw f blank k d ≡ ok (b, some t, d₁)
      → at (table_of t d₁).table (slot k (table_of t d₁).sizemask) ≡ ok c
      → on_place t (set_value k v) (λ n. n) k d₁ ≡ ok d'
      → replace f blank k v d
        ≡ (if b then ok (1, d') else if has_next k c then fault dangling else ok (0, d'))
  unfolding replace
  replace_runs f blank k v d d₁ d' b t c raw got run = rw (raw, got, run)

  -- `replace(key, value)` on a valid dictionary with at most 2^30 entries. There is a dictionary that
  -- maps the key to the value and every other key as before, and is valid. Where the key is new,
  -- `replace` leaves it and returns 1. Where it is there, `insertRaw` has found it in a table: if no
  -- entry follows that of the key in its bucket of that table, `replace` leaves that dictionary and
  -- returns 0; if one does, the rest of the chain is deleted while the table still points to it.
  pub replace-Assigns :
      (f : ℕ) (blank : V) (k : K) (v : V) (d : Dict K V)
      → IsValid d
      → (d.ht0.used + d.ht1.used) * 2 ≤ most_buckets
      → (d' : Dict K V) × Assigns k v d d'
        × (((is_some (view d k) ≡ false) × (replace f blank k v d ≡ ok (1, d')))
            ⊎ ((is_some (view d k) ≡ true)
                × (t : Which) × (d₁ : Dict K V) × (insert_raw f blank k d ≡ ok (false, some t, d₁))
                × (find k (home (table_of t d₁) k) ≡ view d k)
                × (replace f blank k v d ≡ (
                    if has_next k (home (table_of t d₁) k) then fault dangling else ok (0, d')))))
  replace-Assigns f blank k v d valid small =
      let ((b, place, d₁), raw, (t, at_t, i, loc, is_new)) =
        insert_raw-IsEntered f blank k d valid small in
      let (v₀, got, found, seen) = Located-value k d₁ t i.valid loc in
      let (d', run, (a, same_number)) = on_place-Assigns k v d₁ t i.valid loc in
      let c = home (table_of t d₁) k in
      let runs =
        replace_runs f blank k v d d₁ d' b t c (raw ∙ ap (λ p. ok (b, p, d₁)) at_t) got run in
      (
        d',
        record {
          valid = a.valid;
          here = a.here;
          others = λ q apart. a.others q apart ∙ i.others q apart;
          added = omega (arith, same_number, i.added);
          same_iterators = a.same_iterators ∙ i.same_iterators;
        },
        elim (Bool-cases (is_some (view d k))) [
          | inr missing ↦
              let fresh : b ≡ true = is_new ∙ ap not missing in
              inl (missing, runs ∙ ap (λ x. answered x d' c) fresh)
          | inl there ↦
              let old : b ≡ false = is_new ∙ ap not there in
              inr (
                there,
                t,
                d₁,
                raw ∙ ap (λ p. ok (b, p, d₁)) at_t ∙ ap (λ x. ok (x, some t, d₁)) old,
                found ∙ sym seen ∙ i.here ∙ sym (found_same (view d k) blank there),
                runs ∙ ap (λ x. answered x d' c) old,
              )
        ],
      )
    where
      answered : Bool → Dict K V → Chain K V → Run (ℕ × Dict K V)
      answered x d' c =
          if x then ok (1, d') else if has_next k c then fault dangling else ok (0, d')
