-- ===== src/Worker/Pool.antt =====
-- The connection pool of a worker as a map from numbers to pointers.
use mathlib.Core.Option.{or_else}
use yeyj_tcp_server.Base.{
  ℕ, ◌+◌, ◌*◌, ◌≤◌, ◌≡◌, refl, sym, ap, ◌∙◌, arith, Bool, true, false, ◌&&◌, ◌||◌, ◌==◌ as nat_eq,
  if◌then◌else◌, Option, none, some, [], ◌∷◌, ◌++◌, Bool-cases, inl, inr, ok, Returns,
}
use yeyj_tcp_server.HashTable.Chains.{Key, ◌==◌, eq_of_equal}
use yeyj_tcp_server.HashTable.Methods.{subscript_get}
use yeyj_tcp_server.HashTable.Removal.{Removes, erase-Removes}
use yeyj_tcp_server.HashTable.Subscript.{subscript_get-Inserts}
use yeyj_tcp_server.HashTable.Table.{Dict, most_buckets}
use yeyj_tcp_server.HashTable.Valid.{view, IsValid}
use yeyj_tcp_server.Worker.{Worker, Pointer, put_at, remove_connection, load_factor, epoll_del}

pub put_at_self {ℓ} : {A : Type ℓ} (a : ℕ) (x : A) (f : ℕ → A) → put_at a x f a ≡ x
unfolding put_at
put_at_self a x f = let here : nat_eq a a ≡ true = ground arith in rw here

pub put_at_kept {ℓ} : {A : Type ℓ} (a : ℕ) (f : ℕ → A) (b : ℕ) → put_at a (f a) f b ≡ f b
unfolding put_at
put_at_kept a f b = elim (Bool-cases (nat_eq b a)) [
  | inl there ↦ let e : b ≡ a = ground arith in rw there (ap f (sym e))
  | inr apart ↦ rw apart
]

pub put_at_twice {ℓ} :
    {A : Type ℓ} (a : ℕ) (x y : A) (f : ℕ → A) (b : ℕ)
    → put_at a x (put_at a y f) b ≡ put_at a x f b
unfolding put_at
put_at_twice a x y f b = elim (Bool-cases (nat_eq b a)) [
  | inl there ↦ rw there
  | inr apart ↦ rw apart
]

module _ ⦃key : Key ℕ⦄ where
  -- `d'` is `d`, without the key `k` where `gone`, and has no more entries.
  pub record Leaves (gone : Bool) (k : ℕ) (d d' : Dict ℕ Pointer) : Type 0 where
    pub valid : IsValid d'
    pub views : (q : ℕ) → view d' q ≡ (if gone && (q == k) then none else view d q)
    pub no_more : d'.ht0.used + d'.ht1.used ≤ d.ht0.used + d.ht1.used
    pub same_iterators : d'.iterators ≡ d.iterators

  pub Leaves-was :
      (gone : Bool) (k q : ℕ) (p : Pointer) (d d' : Dict ℕ Pointer)
      → Leaves gone k d d'
      → view d' q ≡ some p
      → (view d q ≡ some p) × ((gone && (q == k)) ≡ false)
  Leaves-was gone k q p d d' l h = was (gone && (q == k)) (view d q) (sym (l.views q) ∙ h)
    where
      was :
          (b : Bool) (o : Option Pointer)
          → (if b then none else o) ≡ some p
          → (o ≡ some p) × (b ≡ false)
      was true o h = absurd (cc h)
      was false o h = (h, refl)

  pub Leaves-others :
      (gone : Bool) (k q : ℕ) (d d' : Dict ℕ Pointer)
      → Leaves gone k d d'
      → (q == k) ≡ false
      → view d' q ≡ view d q
  Leaves-others gone k q d d' l apart =
      l.views q ∙ ap (λ b. if gone && b then none else view d q) apart ∙ stays gone
    where
      stays : (g : Bool) → (if g && false then none else view d q) ≡ view d q
      stays true = refl
      stays false = refl

  pub Leaves-none :
      (gone : Bool) (k q : ℕ) (d d' : Dict ℕ Pointer)
      → Leaves gone k d d'
      → view d q ≡ none
      → view d' q ≡ none
  Leaves-none gone k q d d' l h = l.views q ∙ still (gone && (q == k)) (view d q) h
    where
      still : (b : Bool) (o : Option Pointer) → o ≡ none → (if b then none else o) ≡ none
      still true o h = refl
      still false o h = h

  pub Leaves-trans :
      (g g' : Bool) (k : ℕ) (d d₁ d₂ : Dict ℕ Pointer)
      → Leaves g k d d₁
      → Leaves g' k d₁ d₂
      → Leaves (g || g') k d d₂
  Leaves-trans false g' k d d₁ d₂ l l' = record {
    valid = l'.valid;
    views = λ q. l'.views q ∙ ap (λ o. if g' && (q == k) then none else o) (l.views q);
    no_more = omega (arith, l.no_more, l'.no_more);
    same_iterators = l'.same_iterators ∙ l.same_iterators;
  }
  Leaves-trans true g' k d d₁ d₂ l l' = record {
    valid = l'.valid;
    views = λ q. l'.views q ∙ still g' (q == k) (view d₁ q) (view d q) (l.views q);
    no_more = omega (arith, l.no_more, l'.no_more);
    same_iterators = l'.same_iterators ∙ l.same_iterators;
  }
    where
      still :
          (g b : Bool) (o o' : Option Pointer)
          → o ≡ (if b then none else o')
          → (if g && b then none else o) ≡ (if b then none else o')
      still false b o o' h = h
      still true false o o' h = h
      still true true o o' h = refl

  pub Removes-Leaves : (k : ℕ) (d d' : Dict ℕ Pointer) → Removes k d d' → Leaves true k d d'
  Removes-Leaves k d d' r = record {
    valid = r.valid;
    views = views_of;
    no_more = omega (arith, r.fewer);
    same_iterators = r.same_iterators;
  }
    where
      views_of : (q : ℕ) → view d' q ≡ (if q == k then none else view d q)
      views_of q = elim (Bool-cases (q == k)) [
        | inl there ↦ let e : q ≡ k = eq_of_equal there in rw there (ap (view d') e ∙ r.absent)
        | inr apart ↦ rw apart (r.others q apart)
      ]

  -- `_connectionPool[id]` where `id` is in the pool.
  pub subscript_get_present :
      (p : Pointer) (k : ℕ) (d : Dict ℕ Pointer)
      → IsValid d
      → (d.ht0.used + d.ht1.used) * 2 ≤ most_buckets
      → view d k ≡ some p
      → Returns (subscript_get load_factor none k d) (λ r. (r.0 ≡ p) × Leaves false k d r.1)
  unfolding or_else
  subscript_get_present p k d valid small there =
      let ((v, d'), run, (got, i)) = subscript_get-Inserts load_factor none k d valid small in
      let e : some v ≡ some p = got ∙ ap (λ o. or_else o (some none)) there in
      (
        (v, d'),
        run,
        (
          cc e,
          record {
            valid = i.valid;
            views = λ q. elim (Bool-cases (q == k)) [
              | inl same ↦
                  let at_k : q ≡ k = eq_of_equal same in
                  ap (view d') at_k
                  ∙ i.here
                  ∙ ap (λ o. or_else o (some none)) there
                  ∙ sym there
                  ∙ ap (view d) (sym at_k)
              | inr apart ↦ i.others q apart
            ];
            no_more = (let n = rw there at i.added in omega (arith, n));
            same_iterators = i.same_iterators;
          },
        ),
      )

  -- `_connectionPool[id]` where it is not: the null pointer, which is then in the pool.
  pub subscript_get_missing :
      (k : ℕ) (d : Dict ℕ Pointer)
      → IsValid d
      → (d.ht0.used + d.ht1.used) * 2 ≤ most_buckets
      → view d k ≡ none
      → (d' : Dict ℕ Pointer) × (subscript_get load_factor none k d ≡ ok (none, d'))
  unfolding or_else
  subscript_get_missing k d valid small missing =
      let ((v, d'), run, (got, i)) = subscript_get-Inserts load_factor none k d valid small in
      let e : some v ≡ some none = got ∙ ap (λ o. or_else o (some none)) missing in
      let null : v ≡ none = cc e in (d', run ∙ ap (λ p. ok (p, d')) null)

  module _ {S : Type 0} where
    -- `removeConnection(conn)` takes the number of the connection from the pool, and its descriptor
    -- from epoll.
    pub remove_connection-Leaves :
        (a : ℕ) (w : Worker S)
        → IsValid w.pool
        → (d : Dict ℕ Pointer) × (remove_connection (some a) w
            ≡ ok (record w { pool = d; epoll = w.epoll ++ epoll_del (w.objects a).connfd ∷ [] }))
          × Removes (w.objects a).id w.pool d
    unfolding remove_connection
    remove_connection-Leaves a w valid =
        let (d, run, r) = erase-Removes (w.objects a).id w.pool valid in (d, rw run, r)
