-- ===== src/HashTable/Steps.antt =====
-- `rehash` and `rehashStep` on a valid dictionary: they end, the map stays, and they get on.
use mathlib.Core.Option.{or_else}
use native.Mathlib.Decide.{ℕ_discrete}
use yeyj_tcp_server.Base.{
  int_max, mul_int-ok, ◌≤◌, ℕ, zero, suc, ◌+◌, ◌*◌, ◌<◌, ◌≡◌, refl, sym, ◌∙◌, ◌⊎◌, arith, Bool,
  true, false, Option, none, some, [], if◌then◌else◌, inl, inr, get_or, ok, ◌>>=◌, Returns,
  ◌==◌ as nat_eq,
}
use yeyj_tcp_server.HashTable.Chains.{Key, find, slot}
use yeyj_tcp_server.HashTable.Moves.{Keeps}
use yeyj_tcp_server.HashTable.Rehash.{rehash_loop, finish, rehash, rehash_step, step_if_rehashing}
use yeyj_tcp_server.HashTable.Table.{Dict, new, no_table, is_some}
use yeyj_tcp_server.HashTable.Valid.{entries, no_entries, count, home, view, IsPlaced, IsValid}
use yeyj_tcp_server.HashTable.Rounds.{Keeps-refl, Keeps-trans, Advances, rehash_loop-Advances}

pub or_else-none {ℓ} : {A : Type ℓ} (o : Option A) → or_else o none ≡ o
unfolding or_else
or_else-none none = refl
or_else-none (some x) = refl

pub option_cases {ℓ} : {A : Type ℓ} (o : Option A) → (o ≡ none) ⊎ ((a : A) × (o ≡ some a))
option_cases none = inl refl
option_cases (some a) = inr (a, refl)

pub none_branch {ℓ κ} :
    {A : Type ℓ} {B : Type κ} (o : Option A) (b : B) (f : A → B)
    → o ≡ none
    → (elim o [ none ↦ b | some x ↦ f x ]) ≡ b
none_branch o b f e = rw e

some_branch {ℓ κ} :
    {A : Type ℓ} {B : Type κ} (o : Option A) (a : A) (b : B) (f : A → B)
    → o ≡ some a
    → (elim o [ none ↦ b | some x ↦ f x ]) ≡ f a
some_branch o a b f e = rw e

module _ {ℓ} {K V : Type ℓ} ⦃key : Key K⦄ where
  no_table-IsPlaced : IsPlaced {K = K} {V = V} no_table
  unfolding count entries
  no_table-IsPlaced = record {
    width = refl;
    within = omega arith;
    mask = λ h. absurd (omega arith);
    counted = refl;
    homes = λ q i ne. refl;
  }

  -- An empty dictionary is valid, and maps nothing.
  pub new-IsValid : IsValid {K = K} {V = V} new
  unfolding new count
  new-IsValid = record {
    placed0 = no_table-IsPlaced;
    placed1 = no_table-IsPlaced;
    once = λ q. omega arith;
    mode = (refl, refl);
  }

  pub view-new : (q : K) → view {K = K} {V = V} new q ≡ none
  unfolding new view find or_else
  view-new q = refl

  -- The second table takes over.
  finish-Keeps :
      (d : Dict K V)
      → IsValid d
      → d.ht0.used ≡ 0
      → Keeps d (record d { ht0 = d.ht1; ht1 = no_table; rehashidx = none })
  unfolding view count find or_else
  finish-Keeps d v none_left =
      let all_null : (i : ℕ) → get_or d.ht0.table i [] ≡ [] =
        λ i. no_entries d.ht0.table i (sym v.placed0.counted ∙ none_left) in
      record {
        valid = record {
          placed0 = v.placed1;
          placed1 = no_table-IsPlaced;
          once = λ q. omega (arith, v.once q);
          mode = (refl, refl);
        };
        same_view =
            λ q. rw (all_null (slot q d.ht0.sizemask)) (or_else-none (find q (home d.ht1 q)));
        same_size = omega arith;
        same_iterators = refl;
      }

  -- How far a call of `rehash` has come: to the end, or past bucket `r`, with entries left to move.
  abbrev pub Progress : ℕ → Bool × Dict K V → Type 0
  Progress r (more, d) =
      ((more ≡ false) × (d.rehashidx ≡ none))
      ⊎ ((more ≡ true)
          × ((reached : ℕ) × (d.rehashidx ≡ some reached) × (r < reached) × (0 < d.ht0.used)))

  -- `rehash` behind its loop.
  abbrev pub ending : Bool × Dict K V → Bool × Dict K V
  ending (early, d) = if early then (true, d) else finish d

  ending-Keeps :
      (n r : ℕ) (d : Dict K V) (res : Bool × Dict K V)
      → Advances (suc n) r d res
      → Keeps d (ending res).1 × Progress r (ending res)
  unfolding finish
  ending-Keeps n r d (true, d') a =
      let onward : r < a.reached = elim a.further [
        | inl over ↦ absurd (cc (over.0))
        | inr (inl no_rounds) ↦ omega arith
        | inr (inr lt) ↦ lt
      ] in
      (a.keeps, inr (refl, (a.reached, a.at_reached, onward, a.early refl)))
  ending-Keeps n r d (false, d') a = elim (ℕ_discrete d'.ht0.used 0) [
    | yes none_left ↦ rw none_left (
      Keeps-trans d d' (record d' { ht0 = d'.ht1; ht1 = no_table; rehashidx = none }) a.keeps
          (finish-Keeps d' a.keeps.valid none_left),
      inl (refl, refl),
    )
    | no some_left ↦
        let left : nat_eq d'.ht0.used 0 ≡ false = ground arith in
        let onward : r < a.reached = elim a.further [
          | inl over ↦ absurd (some_left over.1)
          | inr (inl no_rounds) ↦ omega arith
          | inr (inr lt) ↦ lt
        ] in
        rw left (a.keeps, inr (refl, (a.reached, a.at_reached, onward, omega arith)))
  ]

  -- While a valid dictionary is rehashing, `rehash(n)` with n above 0, and `n * 10` an `int`, returns; the
  -- dictionary is valid, maps each key as before and has as many entries; and either no rehashing
  -- is left and 0 is returned, or `rehashidx` has grown and 1 is returned.
  pub rehash-Keeps :
      (n r : ℕ) (d : Dict K V)
      → IsValid d
      → d.rehashidx ≡ some r
      → 0 < n
      → n * 10 ≤ int_max
      → Returns (rehash n d) (λ res. Keeps d res.1 × Progress r res)
  unfolding rehash finish
  rehash-Keeps zero r d v at_r some_rounds few = absurd (omega arith)
  rehash-Keeps (suc n) r d v at_r some_rounds few =
      let (res, run, a) = rehash_loop-Advances (suc n) (n * 10 + 9) r d v at_r in
      let visits : suc n * 10 ≡ suc (n * 10 + 9) = omega arith in
      let begins =
        some_branch d.rehashidx r (ok (false, d))
          (λ idx. rehash_loop (suc n) (suc n * 10) idx d >>= λ got. ok (ending got)) at_r in
      (
        ending res,
        rw (mul_int-ok (suc n) 10 few) (begins ∙ rw (visits, run)),
        ending-Keeps n r d res a,
      )

  -- While rehashing, the first table has entries left to move.
  abbrev pub HasWork : Dict K V → Type 0
  HasWork d = (r : ℕ) → d.rehashidx ≡ some r → 0 < d.ht0.used

  Progress-HasWork : (r : ℕ) (res : Bool × Dict K V) → Progress r res → HasWork res.1
  Progress-HasWork r res (inl (over, idle)) q at_q = absurd (cc (idle, at_q))
  Progress-HasWork r res (inr (more, (reached, at_reached, lt, left))) q at_q = left

  -- `rehashStep` and `if (isRehashing()) rehashStep();` on a valid dictionary return a valid one
  -- with the same map and as many entries; where no iterator is active, rehashing is over or has
  -- entries left to move.
  pub step_if_rehashing-HasWork :
      (d : Dict K V)
      → IsValid d
      → Returns (step_if_rehashing d) (λ d'. Keeps d d' × (d.iterators ≡ 0 → HasWork d'))
  unfolding step_if_rehashing rehash_step
  step_if_rehashing-HasWork d v = elim (option_cases d.rehashidx) [
    | inl idle ↦ (d, rw idle, (Keeps-refl d v, λ free r at_r. absurd (cc (idle, at_r))))
    | inr (r, at_r) ↦ elim (ℕ_discrete d.iterators 0) [
      | no held ↦
          let busy : nat_eq d.iterators 0 ≡ false = ground arith in
          (d, rw (at_r, busy), (Keeps-refl d v, λ free. absurd (held free)))
      | yes free ↦
          let (res, run, (k, on)) = rehash-Keeps 1 r d v at_r (omega arith) (omega arith) in
          let rehashing : is_some d.rehashidx ≡ true = rw at_r in
          let nobody : nat_eq d.iterators 0 ≡ true = ground arith in
          (res.1, rw (rehashing, nobody, run), (k, λ calm. Progress-HasWork r res on))
    ]
  ]

  pub step_if_rehashing-Keeps :
      (d : Dict K V) → IsValid d → Returns (step_if_rehashing d) (λ d'. Keeps d d')
  step_if_rehashing-Keeps d v =
      let (d', run, (keep, work)) = step_if_rehashing-HasWork d v in (d', run, keep)
