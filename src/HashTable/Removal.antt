-- ===== src/HashTable/Removal.antt =====
-- `erase` on a valid dictionary, idle or rehashing: it removes the key from the map.
use mathlib.Core.Option.{or_else}
use native.Mathlib.Decide.{ℕ_discrete}
use yeyj_tcp_server.Base.{
  ℕ, ◌+◌, ◌-◌, ◌≤◌, ◌<◌, ◌≡◌, refl, sym, ◌∙◌, arith, true, false, ◌&&◌, Option, none, some, [],
  Bool-cases, inl, inr, get_or, ok, Returns, at-ok, store-ok, ◌==◌ as nat_eq,
}
use yeyj_tcp_server.HashTable.Chains.{Key, ◌==◌, find, slot, unlink, eq_of_equal}
use yeyj_tcp_server.HashTable.Lookup.{
  Located, nowhere, in_first, in_second, walk-Located, sized, empty-view, some_left,
}
use yeyj_tcp_server.HashTable.Methods.{erase, on_chain, on_place}
use yeyj_tcp_server.HashTable.Moves.{Keeps}
use yeyj_tcp_server.HashTable.Steps.{step_if_rehashing-Keeps}
use yeyj_tcp_server.HashTable.Table.{Dictht, Dict, Which, first, second, is_some}
use yeyj_tcp_server.HashTable.Valid.{
  count, count-find, home, view, one_if, IsPlaced, Mode, IsValid, slot-lt,
}
use yeyj_tcp_server.HashTable.Unlinking.{Struck, struck, struck-Struck}

module _ {ℓ} {K V : Type ℓ} ⦃key : Key K⦄ where
  pub Mode-first :
      (o : Option ℕ) (d : Dict K V) (h : Dictht K V)
      → h.size ≡ d.ht0.size
      → ((j : ℕ) → get_or d.ht0.table j [] ≡ [] → get_or h.table j [] ≡ [])
      → Mode o d
      → Mode o (record d { ht0 = h })
  Mode-first none d h same blank m = m
  Mode-first (some r) d h same blank m = ((omega (arith, m.0.0), m.0.1), λ j lt. blank j (m.1 j lt))

  pub Mode-second :
      (o : Option ℕ) (d : Dict K V) (h : Dictht K V)
      → h.size ≡ d.ht1.size
      → 0 < d.ht1.size
      → Mode o d
      → Mode o (record d { ht1 = h })
  Mode-second none d h same some_size m = absurd (omega (arith, m.1))
  Mode-second (some r) d h same some_size m = ((m.0.0, omega (arith, m.0.1)), m.1)

  -- `d'` is `d` without `k`.
  pub record Removes (k : K) (d d' : Dict K V) : Type ℓ where
    pub valid : IsValid d'
    pub absent : view d' k ≡ none
    pub others : (q : K) → (q == k) ≡ false → view d' q ≡ view d q
    pub fewer : d.ht0.used + d.ht1.used ≡ d'.ht0.used + d'.ht1.used + one_if (is_some (view d k))
    pub same_iterators : d'.iterators ≡ d.iterators

  -- The bound on the occurrences of a key survives where those of `k` get fewer.
  once-Struck :
      (k q : K) (h h' : Dictht K V) (n : ℕ)
      → Struck k h h'
      → count q (home h q) + n ≤ 1
      → count q (home h' q) + n ≤ 1
  once-Struck k q h h' n s few = elim (Bool-cases (q == k)) [
    | inr apart ↦ rw (s.counts q apart) few
    | inl same ↦
        let eq : q ≡ k = eq_of_equal same in
        let few' : count k (home h k) + n ≤ 1 = rw eq at few in
        rw eq (omega (arith, s.counted_self))
  ]

  struck_first-Removes :
      (k : K) (d : Dict K V)
      → IsValid d
      → is_some (find k (home d.ht0 k)) ≡ true
      → 0 < d.ht0.size
      → Removes k d (record d { ht0 = struck k d.ht0 })
  unfolding view or_else
  struck_first-Removes k d v there some_size =
      let s = struck-Struck k d.ht0 v.placed0 some_size there in
      let once_k = v.once k in
      let gone0 = count-find k (home (struck k d.ht0) k) (omega (arith, s.counted_self)) in
      let gone1 = count-find k (home d.ht1 k) (omega (arith, s.counted_self)) in
      let seen = some_left (find k (home d.ht0 k)) (find k (home d.ht1 k)) there in
      record {
        valid = record {
          placed0 = s.placed;
          placed1 = v.placed1;
          once = λ q. once-Struck k q d.ht0 (struck k d.ht0) (count q (home d.ht1 q)) s (v.once q);
          mode = Mode-first d.rehashidx d (struck k d.ht0) s.same_size s.blank v.mode;
        };
        absent = rw (gone0, gone1);
        others = λ q apart. rw (s.finds q apart);
        fewer = rw seen (omega (arith, s.fewer));
        same_iterators = refl;
      }

  second-Removes :
      (k : K) (d : Dict K V)
      → IsValid d
      → find k (home d.ht0 k) ≡ none
      → is_some (find k (home d.ht1 k)) ≡ true
      → 0 < d.ht1.size
      → Removes k d (record d { ht1 = struck k d.ht1 })
  unfolding view or_else
  second-Removes k d v missing there some_size =
      let s = struck-Struck k d.ht1 v.placed1 some_size there in
      let once_k = v.once k in
      let gone1 = count-find k (home (struck k d.ht1) k) (omega (arith, s.counted_self)) in
      record {
        valid = record {
          placed0 = v.placed0;
          placed1 = s.placed;
          once = λ q.
              let flipped : count q (home d.ht1 q) + count q (home d.ht0 q) ≤ 1 =
                omega (arith, v.once q) in
              omega
                (arith, once-Struck k q d.ht1 (struck k d.ht1) (count q (home d.ht0 q)) s flipped);
          mode = Mode-second d.rehashidx d (struck k d.ht1) s.same_size some_size v.mode;
        };
        absent = rw (missing, gone1);
        others = λ q apart. rw (s.finds q apart);
        fewer = rw (missing, there) (omega (arith, s.fewer));
        same_iterators = refl;
      }

  unlink_runs :
      (k : K) (h : Dictht K V)
      → IsPlaced h
      → 0 < h.size
      → on_chain (unlink k) (λ n. n - 1) k h ≡ ok (struck k h)
  unfolding on_chain
  unlink_runs k h p some_size =
      let inside = slot-lt k h p some_size in
      let i = slot k h.sizemask in
      rw (at-ok h.table i [] inside, store-ok h.table i (unlink k (home h k)) inside)

  absent-Removes : (k : K) (d : Dict K V) → IsValid d → view d k ≡ none → Removes k d d
  absent-Removes k d v missing = record {
    valid = v;
    absent = missing;
    others = λ q apart. refl;
    fewer = rw missing (omega arith);
    same_iterators = refl;
  }

  Located-Removes :
      (k : K) (d : Dict K V) (place : Option Which)
      → IsValid d
      → Located k d place
      → Returns
          (elim place [ none ↦ ok d | some t ↦ on_place t (unlink k) (λ n. n - 1) k d ])
          (λ d'. Removes k d d')
  unfolding on_place view or_else
  Located-Removes k d none v (nowhere a b) = (d, refl, absent-Removes k d v (rw (a, b)))
  Located-Removes k d (some first) v (in_first there some_size) = (
    record d { ht0 = struck k d.ht0 },
    rw (unlink_runs k d.ht0 v.placed0 some_size),
    struck_first-Removes k d v there some_size,
  )
  Located-Removes k d (some second) v (in_second missing there some_size) = (
    record d { ht1 = struck k d.ht1 },
    rw (unlink_runs k d.ht1 v.placed1 some_size),
    second-Removes k d v missing there some_size,
  )

  after-Removes : (k : K) (d d₁ d' : Dict K V) → Keeps d d₁ → Removes k d₁ d' → Removes k d d'
  after-Removes k d d₁ d' keep r = record {
    valid = r.valid;
    absent = r.absent;
    others = λ q apart. r.others q apart ∙ keep.same_view q;
    fewer = sym keep.same_size ∙ rw (← keep.same_view k) r.fewer;
    same_iterators = r.same_iterators ∙ keep.same_iterators;
  }

  -- `erase(key)` on a valid dictionary returns; afterwards the dictionary is valid, does not map
  -- the key, maps every other key as before, and has one entry less if the key was there and as
  -- many as before if not.
  pub erase-Removes :
      (k : K) (d : Dict K V) → IsValid d → Returns (erase k d) (λ d'. Removes k d d')
  unfolding erase
  erase-Removes k d v = elim (ℕ_discrete (d.ht0.used + d.ht1.used) 0) [
    | yes e ↦
        let bare : (nat_eq d.ht0.used 0 && nat_eq d.ht1.used 0) ≡ true = ground arith in
        (d, rw bare, absent-Removes k d v (empty-view d k v e))
    | no ne ↦
        let there : (nat_eq d.ht0.used 0 && nat_eq d.ht1.used 0) ≡ false = ground arith in
        let (d₁, run, keep) = step_if_rehashing-Keeps d v in
        let (place, walked, located) =
          walk-Located k d₁ keep.valid (sized d₁ keep.valid (omega (arith, keep.same_size))) in
        let (d', removed, r) = Located-Removes k d₁ place keep.valid located in
        (d', rw (there, run, walked) removed, after-Removes k d d₁ d' keep r)
  ]
