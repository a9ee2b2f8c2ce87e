-- ===== src/HashTable/Moves.antt =====
-- One round of `rehash`: moving a bucket to the second table leaves the map alone.
use mathlib.Core.Option.{or_else}
use mathlib.Core.Path.{subst}
use yeyj_tcp_server.Base.{
  ℕ, ◌+◌, ◌-◌, ◌≤◌, ◌<◌, ◌≡◌, refl, ◌∙◌, arith, some, [], length, get_or, set, length-set,
  get_or-set_self, get_or-set_ne, ok, store-ok,
}
use native.Mathlib.Decide.{ℕ_discrete}
use yeyj_tcp_server.HashTable.Chains.{Key, slot, find}
use yeyj_tcp_server.HashTable.Rehash.{move_bucket}
use yeyj_tcp_server.HashTable.Table.{Dictht, Dict}
use yeyj_tcp_server.HashTable.Valid.{
  entries-set, count, count-find, home, view, IsPlaced, Mode, IsValid,
}
use yeyj_tcp_server.HashTable.Skipping.{extend_empty}
use yeyj_tcp_server.HashTable.Filling.{Filled, move_chain-Filled}

module _ {ℓ} {K V : Type ℓ} ⦃key : Key K⦄ where
  -- `d'` has the entries of `d` under the same keys, and is valid.
  pub record Keeps (d d' : Dict K V) : Type ℓ where
    pub valid : IsValid d'
    pub same_view : (q : K) → view d' q ≡ view d q
    pub same_size : d'.ht0.used + d'.ht1.used ≡ d.ht0.used + d.ht1.used
    pub same_iterators : d'.iterators ≡ d.iterators

  -- The first table without the bucket `n`.
  abbrev emptied : ℕ → Dict K V → Dictht K V
  emptied n d = record (d.ht0) {
    table = set d.ht0.table n [];
    used = d.ht0.used - length (get_or d.ht0.table n []);
  }

  emptied-IsPlaced :
      (n : ℕ) (d : Dict K V) → IsPlaced d.ht0 → n < length d.ht0.table → IsPlaced (emptied n d)
  unfolding count
  emptied-IsPlaced n d p inside = record {
    width = length-set d.ht0.table n [] ∙ p.width;
    within = p.within;
    mask = p.mask;
    counted = omega (arith, entries-set d.ht0.table n [] inside, p.counted);
    homes = λ q j ne. elim (ℕ_discrete n j) [
      | yes here ↦ rw (← here, get_or-set_self d.ht0.table n [] [] inside)
      | no apart ↦ rw (get_or-set_ne d.ht0.table n j [] [] apart) (p.homes q j ne)
    ];
  }

  -- What the move of a bucket does to the chains of one key.
  moved_key :
      (n : ℕ) (d : Dict K V) (h : Dictht K V) (q : K)
      → IsValid d
      → n < length d.ht0.table
      → Filled (get_or d.ht0.table n []) d.ht1 h
      → (count q (home (emptied n d) q) + count q (home h q) ≤ 1)
        × (or_else (find q (home (emptied n d) q)) (find q (home h q))
            ≡ or_else (find q (home d.ht0 q)) (find q (home d.ht1 q)))
  unfolding count find or_else
  moved_key n d h q v inside f =
      let t = d.ht0.table in
      elim (ℕ_discrete n (slot q d.ht0.sizemask)) [
        | yes here ↦
            let few : count q (get_or t n []) + count q (home d.ht1 q) ≤ 1 = rw here (v.once q) in
            rw (← here, get_or-set_self t n [] [] inside) (omega (arith, f.counts q), f.finds q few)
        | no apart ↦
            let stranger = v.placed0.homes q n apart in
            let few : count q (get_or t n []) + count q (home d.ht1 q) ≤ 1 =
              omega (arith, v.once q) in
            rw (get_or-set_ne t n (slot q d.ht0.sizemask) [] [] apart) (
              omega (arith, f.counts q, v.once q),
              rw (f.finds q few, count-find q (get_or t n []) stranger),
            )
      ]

  -- One round of `rehash` behind its inner loop.
  pub move_bucket-Keeps :
      (n r : ℕ) (d : Dict K V)
      → IsValid d
      → d.rehashidx ≡ some r
      → n < length d.ht0.table
      → ((i : ℕ) → i < n → get_or d.ht0.table i [] ≡ [])
      → (d' : Dict K V) × (move_bucket n (get_or d.ht0.table n []) d ≡ ok d')
        × Keeps d d'
        × (d'.rehashidx ≡ some (n + 1))
  unfolding move_bucket view
  move_bucket-Keeps n r d v at_r inside before =
      let t = d.ht0.table in
      let c = get_or t n [] in
      let m : Mode (some r) d = subst (λ o. Mode o d) at_r v.mode in
      let (h, run, f) = move_chain-Filled c d v.placed1 m.0.1 in
      (
        record d { ht0 = emptied n d; ht1 = h; rehashidx = some (n + 1) },
        rw (run, store-ok t n [] inside),
        record {
          valid = record {
            placed0 = emptied-IsPlaced n d v.placed0 inside;
            placed1 = f.placed;
            once = λ q. (moved_key n d h q v inside f).0;
            mode = (
              (m.0.0, rw f.same_size m.0.1),
              extend_empty (set t n []) n
                  (λ i lt. rw (get_or-set_ne t n i [] [] (omega arith)) (before i lt))
                  (get_or-set_self t n [] [] inside),
            );
          };
          same_view = λ q. (moved_key n d h q v inside f).1;
          same_size = omega (arith, f.more_used, entries-set t n [] inside, v.placed0.counted);
          same_iterators = refl;
        },
        refl,
      )
