-- ===== src/HashTable/Maps.antt =====
-- The dictionary as an abstract map: valid dictionaries that map every key alike are one map, however
-- their tables, chains and the rehashing stand.
use mathlib.Core.Quot
use mathlib.Core.Quot.{Quot, Quot-set}
use yeyj_tcp_server.Base.{
  ◌≡◌, refl, sym, ap, ◌∙◌, none, if◌then◌else◌, Bool-cases, inl, inr, Returns,
}
use yeyj_tcp_server.HashTable.Chains.{Key, ◌==◌, eq_of_equal}
use yeyj_tcp_server.HashTable.Methods.{erase}
use yeyj_tcp_server.HashTable.Rehash.{step_if_rehashing}
use yeyj_tcp_server.HashTable.Removal.{Removes, erase-Removes}
use yeyj_tcp_server.HashTable.Steps.{step_if_rehashing-Keeps}
use yeyj_tcp_server.HashTable.Table.{Dict}
use yeyj_tcp_server.HashTable.Valid.{view, IsValid}

module _ {ℓ} (K V : Type ℓ) ⦃key : Key K⦄ where
  -- A valid dictionary, and two that have the same entries.
  abbrev pub ValidDict : Type ℓ
  ValidDict = (d : Dict K V) × IsValid d

  abbrev pub SameMap : ValidDict → ValidDict → Type ℓ
  SameMap (d, v) (d', v') = (k : K) → view d k ≡ view d' k

  -- The maps.
  abbrev pub MapOf : Type ℓ
  MapOf = Quot SameMap

  -- The map of a dictionary.
  abbrev pub map_of : (d : Dict K V) → IsValid d → MapOf
  map_of d v = Quot.mk (d, v)

  after_erase : K → ValidDict → ValidDict
  after_erase k (d, v) = let (d', run, r) = erase-Removes k d v in (d', r.valid)

  Removes-view :
      (k q : K) (d d' : Dict K V) → Removes k d d' → view d' q ≡ (if q == k then none else view d q)
  Removes-view k q d d' r = elim (Bool-cases (q == k)) [
    | inl same ↦ rw same (ap (view d') (eq_of_equal same) ∙ r.absent)
    | inr apart ↦ rw apart (r.others q apart)
  ]

  SameMap-erase :
      (k : K) (d d' : ValidDict) → SameMap d d' → SameMap (after_erase k d) (after_erase k d')
  unfolding after_erase
  SameMap-erase k (d, v) (d', v') same q =
      let (e, run, r) = erase-Removes k d v in
      let (e', run', r') = erase-Removes k d' v' in
      Removes-view k q d e r
      ∙ ap (λ o. if q == k then none else o) (same q)
      ∙ sym (Removes-view k q d' e' r')

  -- `erase` on maps.
  pub without : K → MapOf → MapOf
  without k =
      Quot.lift Quot-set (λ d. Quot.mk (after_erase k d))
        (λ d d' same. Quot.sound (SameMap-erase k d d' same))

  -- The map of what `erase` leaves depends only on the map before: not on how far the rehashing has
  -- come, nor on the order of the chains.
  pub erase-without :
      (k : K) (d : Dict K V) (v : IsValid d)
      → Returns (erase k d) (λ d'. (v' : IsValid d') × (map_of d' v' ≡ without k (map_of d v)))
  unfolding without after_erase
  erase-without k d v = let (d', run, r) = erase-Removes k d v in (d', run, (r.valid, refl))

  -- A step of rehashing is not seen in the map.
  pub step_if_rehashing-map_of :
      (d : Dict K V) (v : IsValid d)
      → Returns (step_if_rehashing d) (λ d'. (v' : IsValid d') × (map_of d' v' ≡ map_of d v))
  step_if_rehashing-map_of d v =
      let (d', run, keep) = step_if_rehashing-Keeps d v in
      (d', run, (keep.valid, Quot.sound (λ q. keep.same_view q)))
