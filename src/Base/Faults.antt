-- ===== src/Base/Faults.antt =====
-- Runs of C++ code: a value, or the fault that ends them. A fault is an `assert` that fails, an
-- undefined operation, or a loop that has used up the rounds it is given.
use Prim.Native.Nat.{ℕ, zero, suc, ◌+◌, ◌-◌, ◌*◌, ◌%◌, ◌^◌, ◌≤◌, ◌<◌}
use mathlib.Core.Bool.{Bool}
use mathlib.Core.Logic.{◌⊎◌, inl, inr}
use mathlib.Core.List.{List, [], ◌∷◌, ◌++◌}
use mathlib.Core.Path.{◌≡◌, refl}
use native.Mathlib.Omega.{arith}
use yeyj_tcp_server.Base.Int.{ℤ, pos, negsuc}
use yeyj_tcp_server.Base.Lists.{length, get_or, set}
use yeyj_tcp_server.Base.Tests.{◌==◌, ltb, leb, if◌then◌else◌}

pub data Fault : Type 0 where
  assertion overflow out_of_range division_by_zero null_pointer : Fault
  uninitialised missing_return endless process_exit empty_function dangling data_race : Fault

pub data Run {ℓ} (A : Type ℓ) : Type ℓ where
  fault : Fault → Run A
  ok : A → Run A

infixl 5 ◌>>=◌ ◌>>◌
abbrev pub ◌>>=◌ {ℓ κ} : {A : Type ℓ} {B : Type κ} → Run A → (A → Run B) → Run B
fault why >>= next = fault why
ok value >>= next = next value

abbrev pub ◌>>◌ {ℓ} : {B : Type ℓ} → Run (Unit {0}) → Run B → Run B
m >> k = m >>= λ _. k

-- The run ends normally, in a value that satisfies `P`.
abbrev pub Returns {ℓ κ} : {A : Type ℓ} (run : Run A) (Post : A → Type κ) → Type (ℓ ⊔ κ)
Returns {A} run Post = (result : A) × (run ≡ ok result) × Post result

-- The run ends so, or has used up the rounds or the random numbers that it is given.
abbrev pub Safe {ℓ κ} : {A : Type ℓ} (run : Run A) (Post : A → Type κ) → Type (ℓ ⊔ κ)
Safe run Post = (run ≡ fault endless) ⊎ Returns run Post

pub bind-Safe {ℓ κ μ ν} :
    {A : Type ℓ} {B : Type κ} {P : A → Type μ} {Q : B → Type ν} (r : Run A) (k : A → Run B)
    → Safe r P
    → ((a : A) → P a → Safe (k a) Q)
    → Safe (r >>= k) Q
bind-Safe r k (inl out) next = inl (rw out)
bind-Safe r k (inr (a, run, p)) next = elim (next a p) [
  | inl out ↦ inl (rw (run, out))
  | inr (b, then_run, q) ↦ inr (b, rw (run, then_run), q)
]

pub Safe-returns {ℓ κ} :
    {A : Type ℓ} {run : Run A} {Post : A → Type κ} {a : A}
    → Safe run Post
    → run ≡ ok a
    → Returns run Post
Safe-returns (inl out) h = absurd (cc (out, h))
Safe-returns (inr r) h = r

pub Safe-map {ℓ κ μ} :
    {A : Type ℓ} {P : A → Type κ} {Q : A → Type μ} {run : Run A}
    → Safe run P
    → ((a : A) → P a → Q a)
    → Safe run Q
Safe-map (inl out) f = inl out
Safe-map (inr (a, run, p)) f = inr (a, run, f a p)

-- The largest `int`.
abbrev pub int_max : ℕ
int_max = 2 ^ 31 - 1

-- `a + b` and `a * b` on `int`, for operands that are not negative.
unfoldable pub add_int : ℕ → ℕ → Run ℕ
add_int a b = if leb (a + b) int_max then ok (a + b) else fault overflow

unfoldable pub mul_int : ℕ → ℕ → Run ℕ
mul_int a b = if leb (a * b) int_max then ok (a * b) else fault overflow

-- The conversion of a value to `int`.
unfoldable pub to_int : ℕ → Run ℕ
to_int n = if leb n int_max then ok n else fault overflow

-- `a % n`.
unfoldable pub mod_int : ℕ → ℕ → Run ℕ
mod_int a n = if n == 0 then fault division_by_zero else ok (a % n)

-- `xs[i]` as a value.
unfoldable pub at {ℓ} : {A : Type ℓ} → List A → ℕ → Run A
at (head ∷ rest) zero = ok head
at (head ∷ rest) (suc place) = at rest place
at [] place = fault out_of_range

-- `xs[i] = v`, at an index that may be negative.
unfoldable pub store {ℓ} : {A : Type ℓ} → List A → ℤ → A → Run (List A)
store xs (pos i) v = if ltb i (length xs) then ok (set xs i v) else fault out_of_range
store xs (negsuc i) v = fault out_of_range

unfoldable pub assert : Bool → Run (Unit {0})
assert b = if b then ok tt else fault assertion

pub add_int-ok : (a b : ℕ) → a + b ≤ int_max → add_int a b ≡ ok (a + b)
unfolding add_int
add_int-ok a b h = ground arith

pub mul_int-ok : (a b : ℕ) → a * b ≤ int_max → mul_int a b ≡ ok (a * b)
unfolding mul_int
mul_int-ok a b h = ground arith

pub to_int-ok : (n : ℕ) → n ≤ int_max → to_int n ≡ ok n
unfolding to_int
to_int-ok n h = ground arith

pub mod_int-ok : (a n : ℕ) → 0 < n → mod_int a n ≡ ok (a % n)
unfolding mod_int
mod_int-ok a n h = ground arith

pub at-ok {ℓ} :
    {A : Type ℓ} (xs : List A) (i : ℕ) (d : A) → i < length xs → at xs i ≡ ok (get_or xs i d)
unfolding at
at-ok [] i d h = absurd (omega arith)
at-ok (x ∷ xs) zero d h = refl
at-ok (x ∷ xs) (suc i) d h = at-ok xs i d (omega arith)

pub store-ok {ℓ} :
    {A : Type ℓ} (xs : List A) (i : ℕ) (v : A)
    → i < length xs
    → store xs (pos i) v ≡ ok (set xs i v)
unfolding store
store-ok xs i v h = ground arith

pub Run-cases {ℓ} :
    {A : Type ℓ} (r : Run A) → ((a : A) × (r ≡ ok a)) ⊎ ((e : Fault) × (r ≡ fault e))
Run-cases (ok a) = inl (a, refl)
Run-cases (fault e) = inr (e, refl)

pub ok_inj {ℓ} : {A : Type ℓ} {x y : A} → ok x ≡ ok y → x ≡ y
ok_inj h = cc

pub fault_stops {ℓ} : {A : Type ℓ} {why : Fault} {x : A} → fault why ≡ ok x → ⊥
fault_stops h = cc

pub at_last {ℓ} : {A : Type ℓ} (xs : List A) (x : A) → at (xs ++ x ∷ []) (length xs) ≡ ok x
unfolding at
at_last [] x = refl
at_last (y ∷ xs) x = at_last xs x

-- What two runs in a row that return have gone through.
pub bind-returns {ℓ κ} :
    {A : Type ℓ} {B : Type κ} (r : Run A) (k : A → Run B) (b : B)
    → (r >>= k) ≡ ok b
    → (a : A) × (r ≡ ok a) × (k a ≡ ok b)
bind-returns (ok a) k b h = (a, refl, h)
bind-returns (fault why) k b h = absurd (cc h)
