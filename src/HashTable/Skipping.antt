-- ===== src/HashTable/Skipping.antt =====
-- The loop of `rehash` over empty buckets.
use yeyj_tcp_server.Base.{
  ℕ, zero, suc, ◌+◌, ◌≤◌, ◌<◌, ◌≡◌, refl, ◌⊎◌, arith, false, Option, none, some, List, [], ◌∷◌, inl,
  inr, length, get_or, Run, ok, at-ok, ◌==◌ as nat_eq,
}
use native.Mathlib.Decide.{ℕ_discrete}
use yeyj_tcp_server.HashTable.Chains.{Chain}
use yeyj_tcp_server.HashTable.Rehash.{skip_empty}
use yeyj_tcp_server.HashTable.Table.{is_null}
use yeyj_tcp_server.HashTable.Valid.{entries, more_buckets}

-- What the loop over empty buckets ends with where there are entries: all buckets before the
-- index that it reaches are empty.
pub data Skipped {ℓ} {A : Type ℓ} (t : List (List A)) (n : ℕ) (run : Run (ℕ × ℕ × Option (List A)))
    : Type ℓ where
  gave_up :
      (n' : ℕ)
      → run ≡ ok (0, n', none)
      → n < n'
      → ((i : ℕ) → i < n' → get_or t i [] ≡ [])
      → Skipped t n run
  found :
      (visits' n' : ℕ)
      → run ≡ ok (suc visits', n', some (get_or t n' []))
      → n ≤ n'
      → n' < length t
      → ((i : ℕ) → i < n' → get_or t i [] ≡ [])
      → Skipped t n run

Skipped-further {ℓ} :
    {A : Type ℓ} (t : List (List A)) (n : ℕ) (run : Run (ℕ × ℕ × Option (List A)))
    → Skipped t (n + 1) run
    → Skipped t n run
Skipped-further t n run (gave_up n' e far h) = gave_up n' e (omega arith) h
Skipped-further t n run (found visits' n' e far inside h) =
    found visits' n' e (omega arith) inside h

pub extend_empty {ℓ} :
    {A : Type ℓ} (t : List (List A)) (n : ℕ)
    → ((i : ℕ) → i < n → get_or t i [] ≡ [])
    → get_or t n [] ≡ []
    → (i : ℕ) → i < n + 1
    → get_or t i [] ≡ []
extend_empty t n h here i lt = elim (ℕ_discrete i n) [
  | yes e ↦ rw e here
  | no ne ↦ h i (omega arith)
]

null_cases {ℓ} : {A : Type ℓ} (c : List A) → (c ≡ []) ⊎ (is_null c ≡ false)
null_cases [] = inl refl
null_cases (x ∷ c) = inr refl

pub skip_empty-Skipped {ℓ} :
    {K V : Type ℓ} (visits : ℕ) (t : List (Chain K V)) (n : ℕ)
    → ((i : ℕ) → i < n → get_or t i [] ≡ [])
    → 0 < entries t
    → Skipped t n (skip_empty (suc visits) t n)
unfolding skip_empty
skip_empty-Skipped zero t n h some_there =
    let inside = more_buckets t n h some_there in
    elim (null_cases (get_or t n [])) [
      | inl null ↦
          rw (at-ok t n [] inside, null)
            (gave_up (n + 1) refl (omega arith) (extend_empty t n h null))
      | inr full ↦ rw (at-ok t n [] inside, full) (found 0 n refl (omega arith) inside h)
    ]
skip_empty-Skipped (suc visits) t n h some_there =
    let inside = more_buckets t n h some_there in
    elim (null_cases (get_or t n [])) [
      | inl null ↦
          let more : nat_eq (suc visits) 0 ≡ false = ground arith in
          rw (at-ok t n [] inside, null, more)
            (Skipped-further t n (skip_empty (suc visits) t (n + 1))
              (skip_empty-Skipped visits t (n + 1) (extend_empty t n h null) some_there))
      | inr full ↦ rw (at-ok t n [] inside, full) (found (suc visits) n refl (omega arith) inside h)
    ]
