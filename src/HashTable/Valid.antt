-- ===== src/HashTable/Valid.antt =====
-- What a `dict` means, and where its entries stand: each at most once, in the bucket of its key.
use mathlib.Core.Option.{or_else}
use yeyj_tcp_server.Base.{
  ℕ, zero, suc, ◌+◌, ◌≤◌, ◌<◌, ◌≡◌, ◌≢◌, refl, ap, arith, Bool, Option, none, some, List, [], ◌∷◌,
  if◌then◌else◌, length, get_or, set, bit_and-le,
}
use yeyj_tcp_server.HashTable.Chains.{Key, Chain, ◌==◌, slot, find}
use yeyj_tcp_server.HashTable.Table.{Dictht, Dict, most_buckets}

module _ {ℓ} {A : Type ℓ} where
  -- The number of entries in a table.
  unfoldable pub entries : List (List A) → ℕ
  entries [] = 0
  entries (c ∷ cs) = length c + entries cs

  pub entries-set :
      (t : List (List A)) (i : ℕ) (c : List A)
      → i < length t
      → entries (set t i c) + length (get_or t i []) ≡ entries t + length c
  unfolding entries
  entries-set [] i c h = absurd (omega arith)
  entries-set (b ∷ t) zero c h = omega arith
  entries-set (b ∷ t) (suc i) c h = omega (arith, entries-set t i c (omega arith))

  -- A table with entries has a bucket past any prefix of null pointers.
  pub more_buckets :
      (t : List (List A)) (n : ℕ)
      → ((i : ℕ) → i < n → get_or t i [] ≡ [])
      → 0 < entries t
      → n < length t
  unfolding entries
  more_buckets [] n h some_there = absurd (omega arith)
  more_buckets (c ∷ t) zero h some_there = omega arith
  more_buckets (c ∷ t) (suc n) h some_there =
      let front : length c ≡ 0 = ap length (h 0 (omega arith)) in
      omega (arith, more_buckets t n (λ i lt. h (suc i) (omega arith)) (omega arith))

  pub no_entries : (t : List (List A)) (i : ℕ) → entries t ≡ 0 → get_or t i [] ≡ []
  unfolding entries
  no_entries [] i h = refl
  no_entries ([] ∷ t) zero h = refl
  no_entries ((x ∷ c) ∷ t) zero h = absurd (omega arith)
  no_entries (c ∷ t) (suc i) h = no_entries t i (omega arith)

-- 1 where the test holds.
abbrev pub one_if : Bool → ℕ
one_if test = if test then 1 else 0

module _ {ℓ} {K V : Type ℓ} ⦃key : Key K⦄ where
  -- How often a key occurs in a chain.
  unfoldable pub count : (wanted : K) (chain : Chain K V) → ℕ
  count wanted (entry ∷ rest) = count wanted rest + one_if (wanted == entry.0)
  count wanted [] = 0

  -- A key that does not occur is not found.
  pub count-find :
      (wanted : K) (chain : Chain K V) → count wanted chain ≡ 0 → find wanted chain ≡ none
  unfolding find count
  count-find wanted (entry ∷ rest) none_there = ground (arith, count-find wanted rest)
  count-find wanted [] none_there = refl

  -- The chain in which `q` belongs.
  abbrev pub home : Dictht K V → K → Chain K V
  home h q = get_or h.table (slot q h.sizemask) []

  -- The dictionary as a map: the first table comes before the second.
  unfoldable pub view : Dict K V → K → Option V
  view d q = or_else (find q (home d.ht0 q)) (find q (home d.ht1 q))

  -- Each entry of a table stands in the bucket of its key; the counts are right, and an `int` holds
  -- every index.
  pub record IsPlaced (h : Dictht K V) : Type ℓ where
    pub width : length h.table ≡ h.size
    pub within : h.size ≤ most_buckets
    pub mask : 0 < h.size → h.sizemask + 1 ≡ h.size
    pub counted : h.used ≡ entries h.table
    pub homes : (q : K) (i : ℕ) → i ≢ slot q h.sizemask → count q (get_or h.table i []) ≡ 0

  -- While rehashing, the buckets before `rehashidx` have been moved; otherwise there is no second
  -- table.
  abbrev pub Mode : Option ℕ → Dict K V → Type ℓ
  Mode none d = (d.ht1.table ≡ []) × (d.ht1.size ≡ 0)
  Mode (some r) d =
      ((0 < d.ht0.size) × (0 < d.ht1.size)) × ((i : ℕ) → i < r → get_or d.ht0.table i [] ≡ [])

  pub record IsValid (d : Dict K V) : Type ℓ where
    pub placed0 : IsPlaced d.ht0
    pub placed1 : IsPlaced d.ht1
    pub once : (q : K) → count q (home d.ht0 q) + count q (home d.ht1 q) ≤ 1
    pub mode : Mode d.rehashidx d

  pub slot-lt :
      (q : K) (h : Dictht K V) → IsPlaced h → 0 < h.size → slot q h.sizemask < length h.table
  unfolding slot
  slot-lt q h p some_size = omega (arith, bit_and-le, p.mask some_size, p.width)
