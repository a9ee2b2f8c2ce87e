-- ===== src/HashTable/Unlinking.antt =====
-- Unlinking the entry of a key from its chain, as `erase` does.
use native.Mathlib.Decide.{ℕ_discrete}
use yeyj_tcp_server.Base.{
  ℕ, ◌+◌, ◌-◌, ◌<◌, ◌≡◌, refl, sym, ap, ◌∙◌, arith, true, false, [], ◌∷◌, Bool-cases, inl, inr,
  length, get_or, set, length-set, get_or-set_self, get_or-set_ne,
}
use yeyj_tcp_server.HashTable.Chains.{Key, Chain, ◌==◌, find, slot, unlink, eq_of_equal}
use yeyj_tcp_server.HashTable.Table.{Dictht, is_some}
use yeyj_tcp_server.HashTable.Valid.{entries-set, count, home, IsPlaced, slot-lt}

module _ {ℓ} {K V : Type ℓ} ⦃key : Key K⦄ where
  other_than : (q k : K) (e : K × V) → (q == k) ≡ false → (k == e.0) ≡ true → (q == e.0) ≡ false
  other_than q k e apart same = let eq : k ≡ e.0 = eq_of_equal same in rw eq at apart

  -- What unlinking an entry that is there does to the chain.
  unlink-count_self :
      (k : K) (c : Chain K V)
      → is_some (find k c) ≡ true
      → (count k c ≡ count k (unlink k c) + 1) × (length c ≡ length (unlink k c) + 1)
  unfolding unlink count find
  unlink-count_self k [] h = absurd (cc h)
  unlink-count_self k (e ∷ c) h = elim (Bool-cases (k == e.0)) [
    | inl same ↦ rw same (omega arith, omega arith)
    | inr apart ↦
        let h' : is_some (find k c) ≡ true = rw apart at h in
        let (counts, lengths) = unlink-count_self k c h' in
        rw (apart, apart) (omega (arith, counts), omega (arith, lengths))
  ]

  unlink-count_other :
      (q k : K) (c : Chain K V)
      → (q == k) ≡ false
      → (count q (unlink k c) ≡ count q c) × (find q (unlink k c) ≡ find q c)
  unfolding unlink count find
  unlink-count_other q k [] apart = (refl, refl)
  unlink-count_other q k (e ∷ c) apart = elim (Bool-cases (k == e.0)) [
    | inl same ↦ rw (same, other_than q k e apart same) (omega arith, refl)
    | inr differs ↦
        let (counts, finds) = unlink-count_other q k c apart in
        rw (differs, counts, finds) (refl, refl)
  ]

  -- `h'` is `h` less the entry of `k`.
  pub record Struck (k : K) (h h' : Dictht K V) : Type ℓ where
    pub placed : IsPlaced h'
    pub same_size : h'.size ≡ h.size
    pub fewer : h.used ≡ h'.used + 1
    pub counted_self : count k (home h k) ≡ count k (home h' k) + 1
    pub counts : (q : K) → (q == k) ≡ false → count q (home h' q) ≡ count q (home h q)
    pub finds : (q : K) → (q == k) ≡ false → find q (home h' q) ≡ find q (home h q)
    pub blank : (j : ℕ) → get_or h.table j [] ≡ [] → get_or h'.table j [] ≡ []

  abbrev pub struck : K → Dictht K V → Dictht K V
  struck k h = record h {
    table = set h.table (slot k h.sizemask) (unlink k (home h k));
    used = h.used - 1;
  }

  struck-home :
      (k q : K) (h : Dictht K V)
      → IsPlaced h
      → 0 < h.size
      → (q == k) ≡ false
      → (count q (home (struck k h) q) ≡ count q (home h q))
        × (find q (home (struck k h) q) ≡ find q (home h q))
  struck-home k q h p some_size apart =
      let i = slot k h.sizemask in
      let c = unlink k (home h k) in
      elim (ℕ_discrete i (slot q h.sizemask)) [
        | no ne ↦ rw (get_or-set_ne h.table i (slot q h.sizemask) c [] ne) (refl, refl)
        | yes here ↦
            rw (← here, get_or-set_self h.table i c [] (slot-lt k h p some_size))
              (unlink-count_other q k (home h k) apart)
      ]

  pub struck-Struck :
      (k : K) (h : Dictht K V)
      → IsPlaced h
      → 0 < h.size
      → is_some (find k (home h k)) ≡ true
      → Struck k h (struck k h)
  unfolding unlink
  struck-Struck k h p some_size there =
      let i = slot k h.sizemask in
      let c = unlink k (home h k) in
      let inside = slot-lt k h p some_size in
      let (counts, lengths) = unlink-count_self k (home h k) there in
      let total = entries-set h.table i c inside in
      record {
        placed = record {
          width = length-set h.table i c ∙ p.width;
          within = p.within;
          mask = p.mask;
          counted = omega (arith, total, lengths, p.counted);
          homes = λ q j ne. elim (ℕ_discrete i j) [
            | no differs ↦ rw (get_or-set_ne h.table i j c [] differs) (p.homes q j ne)
            | yes here ↦ elim (Bool-cases (q == k)) [
              | inl same ↦
                  let eq : q ≡ k = eq_of_equal same in
                  absurd (ne (sym here ∙ ap (λ x. slot x h.sizemask) (sym eq)))
              | inr apart ↦
                  rw (← here, get_or-set_self h.table i c [] inside)
                    ((unlink-count_other q k (home h k) apart).0
                      ∙ p.homes q i (λ e. ne (sym here ∙ e)))
            ]
          ];
        };
        same_size = refl;
        fewer = omega (arith, total, lengths, p.counted);
        counted_self = rw (get_or-set_self h.table i c [] inside) counts;
        counts = λ q apart. (struck-home k q h p some_size apart).0;
        finds = λ q apart. (struck-home k q h p some_size apart).1;
        blank = λ j null. elim (ℕ_discrete i j) [
          | no differs ↦ rw (get_or-set_ne h.table i j c [] differs) null
          | yes here ↦
              let gone : home h k ≡ [] = ap (λ x. get_or h.table x []) here ∙ null in
              rw (← here, get_or-set_self h.table i c [] inside, gone)
        ];
      }
