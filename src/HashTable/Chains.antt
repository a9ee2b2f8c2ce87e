-- ===== src/HashTable/Chains.antt =====
-- The template parameters `HashFunction` and `KeyCompareFunction` of hash.h, and the chains of
-- entries. `std::hash` is not part of the repository: only that it is a function is used.
use Prim.Native.Nat.{bit_and}
use yeyj_tcp_server.Base.{
  ℕ, ◌%◌, ◌^◌, ◌≡◌, refl, ◌↔◌, Bool, true, false, Option, none, some, List, [], ◌∷◌, if◌then◌else◌,
  Bool-cases, inl, inr,
}

-- `equal` is `std::equal_to`, which compares keys by `==`.
pub record Key {ℓ} (K : Type ℓ) : Type ℓ where
  pub hash : K → ℕ
  pub equal : K → K → Bool
  pub equal_iff : (a b : K) → (equal a b ≡ true) ↔ (a ≡ b)

-- The entries of a bucket in the order of their `next` pointers; `[]` is the null pointer.
abbrev pub Chain {ℓ} : Type ℓ → Type ℓ → Type ℓ
Chain K V = List (K × V)

module _ {ℓ} {K : Type ℓ} ⦃key : Key K⦄ where
  infix 50 ◌==◌
  abbrev pub ◌==◌ : K → K → Bool
  a == b = key.equal a b

  -- `unsigned int h = _hashFunction(key)`.
  unfoldable pub hash_of : K → ℕ
  hash_of k = key.hash k % 2 ^ 32

  -- `h & sizemask`.
  unfoldable pub slot : K → ℕ → ℕ
  unfolding hash_of
  slot k sizemask = bit_and (hash_of k) sizemask

  pub eq_of_equal : {a b : K} → (a == b) ≡ true → a ≡ b
  eq_of_equal {a} {b} h = (key.equal_iff a b).0 h

  pub equal_refl : (a : K) → (a == a) ≡ true
  equal_refl a = (key.equal_iff a a).1 refl

  pub equal_symm : (a b : K) → (a == b) ≡ b == a
  equal_symm a b = elim (Bool-cases (a == b)) [
    | inl same ↦ let e : a ≡ b = eq_of_equal same in rw e
    | inr other ↦ elim (Bool-cases (b == a)) [
      | inr apart ↦ rw (other, apart)
      | inl same ↦ let e : b ≡ a = eq_of_equal same in rw e
    ]
  ]

module _ {ℓ} {K V : Type ℓ} ⦃key : Key K⦄ where
  -- The value of the first entry that the walk over a chain finds.
  unfoldable pub find : K → Chain K V → Option V
  find k [] = none
  find k (e ∷ c) = if k == e.0 then some e.1 else find k c

  -- The chain without the first such entry.
  unfoldable pub unlink : K → Chain K V → Chain K V
  unlink k [] = []
  unlink k (e ∷ c) = if k == e.0 then c else e ∷ unlink k c

  -- `setValue` on the first such entry.
  unfoldable pub set_value : K → V → Chain K V → Chain K V
  set_value k v [] = []
  set_value k v (e ∷ c) = if k == e.0 then (e.0, v) ∷ c else e ∷ set_value k v c

  -- Whether the first such entry has a successor.
  unfoldable pub has_next : K → Chain K V → Bool
  has_next k [] = false
  has_next k (e ∷ []) = false
  has_next k (e ∷ f ∷ c) = if k == e.0 then true else has_next k (f ∷ c)
