-- ===== src/HashTable/Placing.antt =====
-- Putting a new entry in front of its chain, as `insertRaw` and `setValue` do.
use mathlib.Core.Option.{or_else}
use mathlib.Core.Path.{subst}
use yeyj_tcp_server.Base.{
  as_int, as_int-pos, pos, ℕ, zero, suc, ◌+◌, ◌≤◌, ◌<◌, ◌≡◌, refl, sym, ap, arith, false, none,
  some, List, [], ◌∷◌, Bool-cases, inl, inr, length, set, length-set, get_or-set_self, ok, at-ok,
  store-ok,
}
use yeyj_tcp_server.HashTable.Chains.{
  Key, Chain, ◌==◌, find, slot, set_value, eq_of_equal, equal_refl,
}
use yeyj_tcp_server.HashTable.Filling.{filled, filled-IsPlaced, filled-counts, filled-finds}
use yeyj_tcp_server.HashTable.Methods.{on_chain}
use yeyj_tcp_server.HashTable.Table.{Dictht, Dict, is_some}
use yeyj_tcp_server.HashTable.Valid.{count, home, view, one_if, IsPlaced, Mode, IsValid, slot-lt}

set_twice {ℓ} : {A : Type ℓ} (t : List A) (i : ℕ) (a b : A) → set (set t i a) i b ≡ set t i b
set_twice [] i a b = refl
set_twice (x ∷ t) zero a b = refl
set_twice (x ∷ t) (suc i) a b = ap (λ rest. x ∷ rest) (set_twice t i a b)

module _ {ℓ} {K V : Type ℓ} ⦃key : Key K⦄ where
  find-count : (k : K) (c : Chain K V) → find k c ≡ none → count k c ≡ 0
  unfolding find count
  find-count k [] h = refl
  find-count k (e ∷ c) h = elim (Bool-cases (k == e.0)) [
    | inl same ↦ let h' : some e.1 ≡ none = rw same at h in absurd (cc h')
    | inr other ↦
        let h' : find k c ≡ none = rw other at h in rw other (omega (arith, find-count k c h'))
  ]

  -- The index of a bucket is an `int` that is not negative.
  pub slot-as_int :
      (k : K) (h : Dictht K V)
      → IsPlaced h
      → 0 < h.size
      → as_int (slot k h.sizemask) ≡ pos (slot k h.sizemask)
  slot-as_int k h p some_size =
      as_int-pos (slot k h.sizemask) (omega (arith, slot-lt k h p some_size, p.width, p.within))

  -- Adding an entry to a chain, then giving it its value.
  pub push_runs :
      (k : K) (blank : V) (h : Dictht K V)
      → IsPlaced h
      → 0 < h.size
      → on_chain (λ c. (k, blank) ∷ c) (λ n. n + 1) k h ≡ ok (filled (k, blank) h)
  unfolding on_chain
  push_runs k blank h p some_size =
      let inside = slot-lt k h p some_size in
      let i = slot k h.sizemask in
      rw (at-ok h.table i [] inside, store-ok h.table i ((k, blank) ∷ home h k) inside)

  pub assign_runs :
      (k : K) (blank v : V) (h : Dictht K V)
      → IsPlaced h
      → 0 < h.size
      → on_chain (set_value k v) (λ n. n) k (filled (k, blank) h) ≡ ok (filled (k, v) h)
  unfolding on_chain set_value
  assign_runs k blank v h p some_size =
      let i = slot k h.sizemask in
      let c = (k, blank) ∷ home h k in
      let inside = slot-lt k h p some_size in
      let inside' : i < length (set h.table i c) = rw (length-set h.table i c) inside in
      rw (
        at-ok (set h.table i c) i [] inside',
        get_or-set_self h.table i c [] inside,
        equal_refl k,
        store-ok (set h.table i c) i ((k, v) ∷ home h k) inside',
        set_twice h.table i c ((k, v) ∷ home h k),
      )

  -- `d'` is `d` with the value `v` at `k`, if `k` had none, and one entry more only then.
  pub record Inserts (k : K) (v : V) (d d' : Dict K V) : Type ℓ where
    pub valid : IsValid d'
    pub here : view d' k ≡ or_else (view d k) (some v)
    pub others : (q : K) → (q == k) ≡ false → view d' q ≡ view d q
    pub added :
        d'.ht0.used + d'.ht1.used + one_if (is_some (view d k)) ≡ d.ht0.used + d.ht1.used + 1
    pub same_iterators : d'.iterators ≡ d.iterators

  once_put :
      (k q : K) (v : V) (h : Dictht K V) (n : K → ℕ)
      → IsPlaced h
      → 0 < h.size
      → count k (home h k) ≡ 0
      → n k ≡ 0
      → count q (home h q) + n q ≤ 1
      → count q (home (filled (k, v) h) q) + n q ≤ 1
  once_put k q v h n p some_size no_h no_n few = elim (Bool-cases (q == k)) [
    | inr apart ↦ rw (filled-counts (k, v) h q p some_size, apart) (omega (arith, few))
    | inl same ↦
        let eq : q ≡ k = eq_of_equal same in
        rw (eq, filled-counts (k, v) h k p some_size, equal_refl k) (omega (arith, no_h, no_n))
  ]

  pub put_first-Inserts :
      (k : K) (v : V) (d : Dict K V)
      → IsValid d
      → 0 < d.ht0.size
      → find k (home d.ht0 k) ≡ none
      → find k (home d.ht1 k) ≡ none
      → d.rehashidx ≡ none
      → Inserts k v d (record d { ht0 = filled (k, v) d.ht0 })
  unfolding view or_else
  put_first-Inserts k v d ok_d some_size no0 no1 idle =
      let m : Mode none d = subst (λ o. Mode o d) idle ok_d.mode in
      let h = filled (k, v) d.ht0 in
      record {
        valid = record {
          placed0 = filled-IsPlaced (k, v) d.ht0 ok_d.placed0 some_size;
          placed1 = ok_d.placed1;
          once = λ q.
              once_put k q v d.ht0 (λ x. count x (home d.ht1 x)) ok_d.placed0 some_size
                (find-count k (home d.ht0 k) no0) (find-count k (home d.ht1 k) no1) (ok_d.once q);
          mode = subst (λ o. Mode o (record d { ht0 = h })) (sym idle) m;
        };
        here = rw (filled-finds (k, v) d.ht0 k ok_d.placed0 some_size, equal_refl k, no0, no1);
        others = λ q apart. rw (filled-finds (k, v) d.ht0 q ok_d.placed0 some_size, apart);
        added = rw (no0, no1) (omega arith);
        same_iterators = refl;
      }

  pub put_second-Inserts :
      (k : K) (v : V) (r : ℕ) (d : Dict K V)
      → IsValid d
      → find k (home d.ht0 k) ≡ none
      → find k (home d.ht1 k) ≡ none
      → d.rehashidx ≡ some r
      → Inserts k v d (record d { ht1 = filled (k, v) d.ht1 })
  unfolding view or_else
  put_second-Inserts k v r d ok_d no0 no1 at_r =
      let m : Mode (some r) d = subst (λ o. Mode o d) at_r ok_d.mode in
      let h = filled (k, v) d.ht1 in
      record {
        valid = record {
          placed0 = ok_d.placed0;
          placed1 = filled-IsPlaced (k, v) d.ht1 ok_d.placed1 m.0.1;
          once = λ q. omega (
            arith,
            once_put k q v d.ht1 (λ x. count x (home d.ht0 x)) ok_d.placed1 m.0.1
                (find-count k (home d.ht1 k) no1) (find-count k (home d.ht0 k) no0)
                (omega (arith, ok_d.once q)),
          );
          mode = subst (λ o. Mode o (record d { ht1 = h })) (sym at_r) m;
        };
        here = rw (filled-finds (k, v) d.ht1 k ok_d.placed1 m.0.1, equal_refl k, no0, no1);
        others = λ q apart. rw (filled-finds (k, v) d.ht1 q ok_d.placed1 m.0.1, apart);
        added = rw (no0, no1) (omega arith);
        same_iterators = refl;
      }
