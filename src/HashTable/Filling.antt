-- ===== src/HashTable/Filling.antt =====
-- The loop of `rehash` that moves the entries of one bucket to the second table.
use mathlib.Core.Option.{or_else}
use yeyj_tcp_server.Base.{
  suc, ◌+◌, ◌-◌, ◌≤◌, ◌<◌, ◌≡◌, refl, sym, ap, ◌∙◌, ◌⊎◌, arith, false, some, [], ◌∷◌, if◌then◌else◌,
  Bool-cases, inl, inr, length, set, length-set, get_or-set_self, get_or-set_ne, ok, at-ok,
  store-ok,
}
use native.Mathlib.Decide.{ℕ_discrete}
use yeyj_tcp_server.HashTable.Chains.{Key, Chain, ◌==◌, slot, find, eq_of_equal}
use yeyj_tcp_server.HashTable.Rehash.{move_chain}
use yeyj_tcp_server.HashTable.Table.{Dictht, Dict}
use yeyj_tcp_server.HashTable.Valid.{
  entries-set, one_if, count, count-find, home, IsPlaced, slot-lt,
}

module _ {ℓ} {K V : Type ℓ} ⦃key : Key K⦄ where
  -- `h'` is `h` with the entries `es` put in front of the chains of their keys.
  pub record Filled (es : Chain K V) (h h' : Dictht K V) : Type ℓ where
    pub placed : IsPlaced h'
    pub same_size : h'.size ≡ h.size
    pub same_mask : h'.sizemask ≡ h.sizemask
    pub more_used : h'.used ≡ length es + h.used
    pub counts : (q : K) → count q (home h' q) ≡ count q es + count q (home h q)
    pub finds :
        (q : K)
        → count q es + count q (home h q) ≤ 1
        → find q (home h' q) ≡ or_else (find q es) (find q (home h q))

  -- One entry.
  abbrev pub filled : K × V → Dictht K V → Dictht K V
  filled e h = record h {
    table = set h.table (slot e.0 h.sizemask) (e ∷ home h e.0);
    used = h.used + 1;
  }

  pub filled-IsPlaced :
      (e : K × V) (h : Dictht K V) → IsPlaced h → 0 < h.size → IsPlaced (filled e h)
  unfolding count
  filled-IsPlaced e h p some_size =
      let i = slot e.0 h.sizemask in
      let inside = slot-lt e.0 h p some_size in
      record {
        width = length-set h.table i (e ∷ home h e.0) ∙ p.width;
        within = p.within;
        mask = p.mask;
        counted = omega (arith, entries-set h.table i (e ∷ home h e.0) inside, p.counted);
        homes = λ q j ne. elim (ℕ_discrete i j) [
          | no apart ↦ rw (get_or-set_ne h.table i j (e ∷ home h e.0) [] apart) (p.homes q j ne)
          | yes here ↦
              let stranger : (q == e.0) ≡ false = elim (Bool-cases (q == e.0)) [
                | inr other ↦ other
                | inl same ↦
                    let eq : q ≡ e.0 = eq_of_equal same in
                    absurd (ne (sym here ∙ ap (λ k. slot k h.sizemask) (sym eq)))
              ] in
              rw (← here, get_or-set_self h.table i (e ∷ home h e.0) [] inside, stranger)
                (omega (arith, p.homes q i (rw here ne)))
        ];
      }

  -- The chain of any key afterwards.
  home-filled :
      (e : K × V) (h : Dictht K V) (q : K)
      → IsPlaced h
      → 0 < h.size
      → (home (filled e h) q ≡ e ∷ home h q)
        ⊎ ((home (filled e h) q ≡ home h q) × ((q == e.0) ≡ false))
  home-filled e h q p some_size =
      let i = slot e.0 h.sizemask in
      elim (ℕ_discrete i (slot q h.sizemask)) [
        | yes here ↦ inl (
            rw (← here) (get_or-set_self h.table i (e ∷ home h e.0) [] (slot-lt e.0 h p some_size)))
        | no apart ↦ inr (
          get_or-set_ne h.table i (slot q h.sizemask) (e ∷ home h e.0) [] apart,
          elim (Bool-cases (q == e.0)) [
            | inr other ↦ other
            | inl same ↦ absurd (apart (ap (λ k. slot k h.sizemask) (sym (eq_of_equal same))))
          ],
        )
      ]

  pub filled-counts :
      (e : K × V) (h : Dictht K V) (q : K)
      → IsPlaced h
      → 0 < h.size
      → count q (home (filled e h) q) ≡ one_if (q == e.0) + count q (home h q)
  unfolding count
  filled-counts e h q p some_size = elim (home-filled e h q p some_size) [
    | inl front ↦ rw front (omega arith)
    | inr (same, other) ↦ rw (same, other) (omega arith)
  ]

  pub filled-finds :
      (e : K × V) (h : Dictht K V) (q : K)
      → IsPlaced h
      → 0 < h.size
      → find q (home (filled e h) q) ≡ (if q == e.0 then some e.1 else find q (home h q))
  unfolding find
  filled-finds e h q p some_size = elim (home-filled e h q p some_size) [
    | inl front ↦ rw front
    | inr (same, other) ↦ rw (same, other)
  ]

  finds_cons :
      (e : K × V) (es : Chain K V) (h h' : Dictht K V) (q : K)
      → IsPlaced h
      → 0 < h.size
      → count q (e ∷ es) + count q (home h q) ≤ 1
      → find q (home h' q) ≡ or_else (find q es) (find q (home (filled e h) q))
      → find q (home h' q) ≡ or_else (find q (e ∷ es)) (find q (home h q))
  unfolding count find or_else
  finds_cons e es h h' q p some_size few r = elim (Bool-cases (q == e.0)) [
    | inr other ↦ r ∙ rw (filled-finds e h q p some_size, other)
    | inl same ↦
        let counted : count q es + 1 + count q (home h q) ≤ 1 = rw same at few in
        r ∙ rw (filled-finds e h q p some_size, same, count-find q es (omega arith))
  ]

  -- The dictionary that the loop over a bucket's entries leaves.
  abbrev moved : Chain K V → Dict K V → Dictht K V → Dict K V
  moved es d h = record d { ht0 = record (d.ht0) { used = d.ht0.used - length es }; ht1 = h }

  pub move_chain-Filled :
      (es : Chain K V) (d : Dict K V)
      → IsPlaced d.ht1
      → 0 < d.ht1.size
      → (h : Dictht K V) × (move_chain es d ≡ ok (moved es d h)) × Filled es d.ht1 h
  unfolding move_chain count find or_else
  move_chain-Filled [] d p some_size =
      let none_moved : d.ht0.used - 0 ≡ d.ht0.used = omega arith in
      (
        d.ht1,
        rw none_moved,
        record {
          placed = p;
          same_size = refl;
          same_mask = refl;
          more_used = omega arith;
          counts = λ q. omega arith;
          finds = λ q few. refl;
        },
      )
  move_chain-Filled (e ∷ es) d p some_size =
      let h = d.ht1 in
      let i = slot e.0 h.sizemask in
      let inside = slot-lt e.0 h p some_size in
      let d₁ = moved (e ∷ []) d (filled e h) in
      let (h', run, f) = move_chain-Filled es d₁ (filled-IsPlaced e h p some_size) some_size in
      let total : d.ht0.used - 1 - length es ≡ d.ht0.used - suc (length es) = omega arith in
      (
        h',
        rw (at-ok h.table i [] inside, store-ok h.table i (e ∷ home h e.0) inside)
            (rw total at run),
        record {
          placed = f.placed;
          same_size = f.same_size;
          same_mask = f.same_mask;
          more_used = omega (arith, f.more_used);
          counts = λ q. omega (arith, f.counts q, filled-counts e h q p some_size);
          finds = λ q few.
              finds_cons e es h h' q p some_size few
                (f.finds q (omega (arith, filled-counts e h q p some_size)));
        },
      )
