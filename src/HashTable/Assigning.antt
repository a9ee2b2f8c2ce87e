-- ===== src/HashTable/Assigning.antt =====
-- Giving the entry of a key a new value, as `setValue` does through `operator[]`.
use mathlib.Core.Option.{or_else}
use native.Mathlib.Decide.{ℕ_discrete}
use yeyj_tcp_server.Base.{
  ℕ, ◌+◌, ◌<◌, ◌≡◌, refl, sym, ap, ◌∙◌, arith, true, false, some, [], ◌∷◌, Bool-cases, inl, inr,
  length, get_or, set, length-set, get_or-set_self, get_or-set_ne, ok, Returns, at-ok, store-ok,
}
use yeyj_tcp_server.HashTable.Chains.{Key, Chain, ◌==◌, find, slot, set_value, eq_of_equal}
use yeyj_tcp_server.HashTable.Lookup.{Located, in_first, in_second, some_left}
use yeyj_tcp_server.HashTable.Methods.{on_chain, on_place}
use yeyj_tcp_server.HashTable.Removal.{Mode-first, Mode-second}
use yeyj_tcp_server.HashTable.Table.{Dictht, Dict, Which, first, second, is_some}
use yeyj_tcp_server.HashTable.Valid.{one_if}
use yeyj_tcp_server.HashTable.Valid.{entries-set, count, home, view, IsPlaced, IsValid, slot-lt}

module _ {ℓ} {K V : Type ℓ} ⦃key : Key K⦄ where
  -- The keys of a chain stay as they are.
  set_value-keys :
      (q k : K) (v : V) (c : Chain K V)
      → (count q (set_value k v c) ≡ count q c) × (length (set_value k v c) ≡ length c)
  unfolding set_value count
  set_value-keys q k v [] = (refl, refl)
  set_value-keys q k v (e ∷ c) = elim (Bool-cases (k == e.0)) [
    | inl same ↦ rw same (refl, refl)
    | inr differs ↦
        let (counts, lengths) = set_value-keys q k v c in rw (differs, counts, lengths) (refl, refl)
  ]

  set_value-find_self :
      (k : K) (v : V) (c : Chain K V)
      → is_some (find k c) ≡ true
      → find k (set_value k v c) ≡ some v
  unfolding set_value find
  set_value-find_self k v [] h = absurd (cc h)
  set_value-find_self k v (e ∷ c) h = elim (Bool-cases (k == e.0)) [
    | inl same ↦ rw (same, same)
    | inr differs ↦
        let h' : is_some (find k c) ≡ true = rw differs at h in
        rw (differs, differs, set_value-find_self k v c h')
  ]

  set_value-find_other :
      (q k : K) (v : V) (c : Chain K V) → (q == k) ≡ false → find q (set_value k v c) ≡ find q c
  unfolding set_value find
  set_value-find_other q k v [] apart = refl
  set_value-find_other q k v (e ∷ c) apart = elim (Bool-cases (k == e.0)) [
    | inl same ↦
        let other : (q == e.0) ≡ false = (let eq : k ≡ e.0 = eq_of_equal same in rw eq at apart) in
        rw (same, other)
    | inr differs ↦ rw (differs, set_value-find_other q k v c apart)
  ]

  abbrev pub assigned : K → V → Dictht K V → Dictht K V
  assigned k v h = record h { table = set h.table (slot k h.sizemask) (set_value k v (home h k)) }

  -- `h'` is `h` with the value `v` at the key `k`, which is in it.
  pub record IsAssigned (k : K) (v : V) (h h' : Dictht K V) : Type ℓ where
    pub placed : IsPlaced h'
    pub same_size : h'.size ≡ h.size
    pub counts : (q : K) → count q (home h' q) ≡ count q (home h q)
    pub here : find k (home h' k) ≡ some v
    pub others : (q : K) → (q == k) ≡ false → find q (home h' q) ≡ find q (home h q)
    pub blank : (j : ℕ) → get_or h.table j [] ≡ [] → get_or h'.table j [] ≡ []

  assigned-home :
      (k q : K) (v : V) (h : Dictht K V)
      → IsPlaced h
      → 0 < h.size
      → (count q (home (assigned k v h) q) ≡ count q (home h q))
        × ((q == k) ≡ false → find q (home (assigned k v h) q) ≡ find q (home h q))
  assigned-home k q v h p some_size =
      let i = slot k h.sizemask in
      let c = set_value k v (home h k) in
      elim (ℕ_discrete i (slot q h.sizemask)) [
        | no ne ↦ rw (get_or-set_ne h.table i (slot q h.sizemask) c [] ne) (refl, λ apart. refl)
        | yes e ↦
            rw (← e, get_or-set_self h.table i c [] (slot-lt k h p some_size))
              (
                (set_value-keys q k v (home h k)).0,
                λ apart. set_value-find_other q k v (home h k) apart,
              )
      ]

  assigned-IsAssigned :
      (k : K) (v : V) (h : Dictht K V)
      → IsPlaced h
      → 0 < h.size
      → is_some (find k (home h k)) ≡ true
      → IsAssigned k v h (assigned k v h)
  unfolding set_value
  assigned-IsAssigned k v h p some_size there =
      let i = slot k h.sizemask in
      let c = set_value k v (home h k) in
      let inside = slot-lt k h p some_size in
      record {
        placed = record {
          width = length-set h.table i c ∙ p.width;
          within = p.within;
          mask = p.mask;
          counted = omega (
            arith,
            entries-set h.table i c inside,
            (set_value-keys k k v (home h k)).1,
            p.counted,
          );
          homes = λ q j ne. elim (ℕ_discrete i j) [
            | no differs ↦ rw (get_or-set_ne h.table i j c [] differs) (p.homes q j ne)
            | yes e ↦
                rw (← e, get_or-set_self h.table i c [] inside)
                  ((set_value-keys q k v (home h k)).0 ∙ p.homes q i (λ f. ne (sym e ∙ f)))
          ];
        };
        same_size = refl;
        counts = λ q. (assigned-home k q v h p some_size).0;
        here =
            rw (get_or-set_self h.table i c [] inside) (set_value-find_self k v (home h k) there);
        others = λ q. (assigned-home k q v h p some_size).1;
        blank = λ j null. elim (ℕ_discrete i j) [
          | no differs ↦ rw (get_or-set_ne h.table i j c [] differs) null
          | yes e ↦
              let gone : home h k ≡ [] = ap (λ x. get_or h.table x []) e ∙ null in
              rw (← e, get_or-set_self h.table i c [] inside, gone)
        ];
      }

  assign_chain :
      (k : K) (v : V) (h : Dictht K V)
      → IsPlaced h
      → 0 < h.size
      → on_chain (set_value k v) (λ n. n) k h ≡ ok (assigned k v h)
  unfolding on_chain
  assign_chain k v h p some_size =
      let inside = slot-lt k h p some_size in
      let i = slot k h.sizemask in
      rw (at-ok h.table i [] inside, store-ok h.table i (set_value k v (home h k)) inside)

  -- `d'` is `d` with the value `v` at `k`, whatever was there.
  pub record Assigns (k : K) (v : V) (d d' : Dict K V) : Type ℓ where
    pub valid : IsValid d'
    pub here : view d' k ≡ some v
    pub others : (q : K) → (q == k) ≡ false → view d' q ≡ view d q
    pub added :
        d'.ht0.used + d'.ht1.used + one_if (is_some (view d k)) ≡ d.ht0.used + d.ht1.used + 1
    pub same_iterators : d'.iterators ≡ d.iterators

  -- Nothing is added where the key has an entry.
  pub on_place-Assigns :
      (k : K) (v : V) (d : Dict K V) (t : Which)
      → IsValid d
      → Located k d (some t)
      → Returns
          (on_place t (set_value k v) (λ n. n) k d)
          (λ d'. Assigns k v d d' × (d'.ht0.used + d'.ht1.used ≡ d.ht0.used + d.ht1.used))
  unfolding on_place view or_else
  on_place-Assigns k v d first valid (in_first there some_size) =
      let s = assigned-IsAssigned k v d.ht0 valid.placed0 some_size there in
      let seen = some_left (find k (home d.ht0 k)) (find k (home d.ht1 k)) there in
      (
        record d { ht0 = assigned k v d.ht0 },
        rw (assign_chain k v d.ht0 valid.placed0 some_size),
        (
          record {
            valid = record {
              placed0 = s.placed;
              placed1 = valid.placed1;
              once = λ q. omega (arith, s.counts q, valid.once q);
              mode = Mode-first d.rehashidx d (assigned k v d.ht0) s.same_size s.blank valid.mode;
            };
            here = rw s.here;
            others = λ q apart. rw (s.others q apart);
            added = rw seen (omega arith);
            same_iterators = refl;
          },
          refl,
        ),
      )
  on_place-Assigns k v d second valid (in_second missing there some_size) =
      let s = assigned-IsAssigned k v d.ht1 valid.placed1 some_size there in
      (
        record d { ht1 = assigned k v d.ht1 },
        rw (assign_chain k v d.ht1 valid.placed1 some_size),
        (
          record {
            valid = record {
              placed0 = valid.placed0;
              placed1 = s.placed;
              once = λ q. omega (arith, s.counts q, valid.once q);
              mode =
                  Mode-second d.rehashidx d (assigned k v d.ht1) s.same_size some_size valid.mode;
            };
            here = rw (missing, s.here);
            others = λ q apart. rw (s.others q apart);
            added = rw (missing, there) (omega arith);
            same_iterators = refl;
          },
          refl,
        ),
      )
