-- ===== src/HashTable/Rounds.antt =====
-- The outer loop of `rehash` on a valid dictionary.
use mathlib.Core.Path.{subst}
use native.Mathlib.Decide.{ℕ_discrete}
use yeyj_tcp_server.Base.{
  ℕ, zero, suc, ◌+◌, ◌≤◌, ◌<◌, ◌≡◌, refl, ◌∙◌, ◌⊎◌, arith, Bool, true, false, some, [], inl, inr,
  get_or, Returns, ltb, ◌==◌ as nat_eq,
}
use yeyj_tcp_server.HashTable.Chains.{Key}
use yeyj_tcp_server.HashTable.Moves.{Keeps, move_bucket-Keeps}
use yeyj_tcp_server.HashTable.Skipping.{gave_up, found, skip_empty-Skipped}
use yeyj_tcp_server.HashTable.Rehash.{rehash_loop}
use yeyj_tcp_server.HashTable.Table.{Dict}
use yeyj_tcp_server.HashTable.Valid.{entries, more_buckets, view, Mode, IsValid}

module _ {ℓ} {K V : Type ℓ} ⦃key : Key K⦄ where
  pub Keeps-refl : (d : Dict K V) → IsValid d → Keeps d d
  Keeps-refl d v = record {
    valid = v;
    same_view = λ q. refl;
    same_size = refl;
    same_iterators = refl;
  }

  pub Keeps-trans : (d d₁ d₂ : Dict K V) → Keeps d d₁ → Keeps d₁ d₂ → Keeps d d₂
  Keeps-trans d d₁ d₂ a b = record {
    valid = b.valid;
    same_view = λ q. b.same_view q ∙ a.same_view q;
    same_size = b.same_size ∙ a.same_size;
    same_iterators = b.same_iterators ∙ a.same_iterators;
  }

  -- Moving `rehashidx` on over empty buckets.
  skipped-Keeps :
      (d : Dict K V) (r n : ℕ)
      → IsValid d
      → d.rehashidx ≡ some r
      → ((i : ℕ) → i < n → get_or d.ht0.table i [] ≡ [])
      → Keeps d (record d { rehashidx = some n })
  unfolding view
  skipped-Keeps d r n v at_r before =
      let m : Mode (some r) d = subst (λ o. Mode o d) at_r v.mode in
      record {
        valid = record {
          placed0 = v.placed0;
          placed1 = v.placed1;
          once = v.once;
          mode = (m.0, before);
        };
        same_view = λ q. refl;
        same_size = refl;
        same_iterators = refl;
      }

  -- What the loop of `rehash` does with `n` rounds, from bucket `r` on.
  pub record Advances (n r : ℕ) (d : Dict K V) (res : Bool × Dict K V) : Type ℓ where
    pub keeps : Keeps d res.1
    pub reached : ℕ
    pub at_reached : res.1.rehashidx ≡ some reached
    pub on : r ≤ reached
    pub early : res.0 ≡ true → 0 < res.1.ht0.used
    pub further : ((res.0 ≡ false) × (res.1.ht0.used ≡ 0)) ⊎ ((n ≡ 0) ⊎ (r < reached))

  later-Advances :
      (n m r r' : ℕ) (d d' : Dict K V) (res : Bool × Dict K V)
      → Keeps d d'
      → r < r'
      → Advances n r' d' res
      → Advances m r d res
  later-Advances n m r r' d d' res k lt a = record {
    keeps = Keeps-trans d d' res.1 k a.keeps;
    reached = a.reached;
    at_reached = a.at_reached;
    on = omega (arith, a.on);
    early = a.early;
    further = inr (inr (omega (arith, a.on)));
  }

  pub rehash_loop-Advances :
      (n visits r : ℕ) (d : Dict K V)
      → IsValid d
      → d.rehashidx ≡ some r
      → Returns (rehash_loop n (suc visits) r d) (Advances n r d)
  unfolding rehash_loop
  rehash_loop-Advances zero visits r d v at_r = (
    (false, d),
    refl,
    record {
      keeps = Keeps-refl d v;
      reached = r;
      at_reached = at_r;
      on = omega arith;
      early = λ h. absurd (cc h);
      further = inr (inl refl);
    },
  )
  rehash_loop-Advances (suc n) visits r d v at_r =
      let t = d.ht0.table in
      let m : Mode (some r) d = subst (λ o. Mode o d) at_r v.mode in
      elim (ℕ_discrete d.ht0.used 0) [
        | yes none_left ↦ (
          (false, d),
          rw none_left,
          record {
            keeps = Keeps-refl d v;
            reached = r;
            at_reached = at_r;
            on = omega arith;
            early = λ h. absurd (cc h);
            further = inl (refl, none_left);
          },
        )
        | no some_left ↦
            let left : nat_eq d.ht0.used 0 ≡ false = ground arith in
            let some_there : 0 < entries t = omega (arith, v.placed0.counted) in
            let inside : ltb r d.ht0.size ≡ true =
              ground (arith, more_buckets t r m.1 some_there, v.placed0.width) in
            elim (skip_empty-Skipped visits t r m.1 some_there) [
              | gave_up n' run far before ↦ (
                (true, record d { rehashidx = some n' }),
                rw (left, inside, run),
                record {
                  keeps = skipped-Keeps d r n' v at_r before;
                  reached = n';
                  at_reached = refl;
                  on = omega arith;
                  early = λ h. omega arith;
                  further = inr (inr far);
                },
              )
              | found visits' n' run far inside' before ↦
                  let (d', moved, k, at_n) = move_bucket-Keeps n' r d v at_r inside' before in
                  let (res, rest, a) = rehash_loop-Advances n visits' (n' + 1) d' k.valid at_n in
                  (
                    res,
                    rw (left, inside, run, moved) rest,
                    later-Advances n (suc n) r (n' + 1) d d' res k (omega arith) a,
                  )
            ]
      ]
