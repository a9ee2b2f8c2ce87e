-- ===== src/Text/Split.antt =====
-- `split` at a delimiter of one byte, against the strings joined by it.
use yeyj_tcp_server.Base.{
  ℕ, zero, suc, ◌+◌, ◌≤◌, ◌<◌, ◌≡◌, ◌≢◌, refl, ap, arith, true, false, Option, none, some, List, [],
  ◌∷◌, ◌++◌, ◌==◌, Bool-cases, inl, inr, length, length-append, ok, ◌>>=◌, Returns,
}
use yeyj_tcp_server.Buffer.{c_string}
use yeyj_tcp_server.Text.Decimal.{IsText, c_string_whole}
use yeyj_tcp_server.Text.{strsep, split_loop, split}

-- `c` does not occur in a string.
abbrev pub IsFree : ℕ → List ℕ → Type 0
IsFree c [] = Unit {0}
IsFree c (x ∷ xs) = ((x == c) ≡ false) × IsFree c xs

abbrev pub AllFree : ℕ → List (List ℕ) → Type 0
AllFree c [] = Unit {0}
AllFree c (t ∷ ts) = IsFree c t × AllFree c ts

-- The strings `t ∷ ts` with `c` between them.
abbrev pub join : ℕ → List ℕ → List (List ℕ) → List ℕ
join c t [] = t
join c t (u ∷ us) = t ++ c ∷ join c u us

pub strsep_last : (c : ℕ) (t : List ℕ) → IsFree c t → strsep (c ∷ []) t ≡ (t, none)
unfolding strsep
strsep_last c [] h = refl
strsep_last c (x ∷ xs) h = rw (h.0, strsep_last c xs h.1)

pub strsep_more :
    (c : ℕ) (t rest : List ℕ) → IsFree c t → strsep (c ∷ []) (t ++ c ∷ rest) ≡ (t, some rest)
unfolding strsep
strsep_more c [] rest h = let here : (c == c) ≡ true = ground arith in rw here
strsep_more c (x ∷ xs) rest h = rw (h.0, strsep_more c xs rest h.1)

none_left :
    (ds : List ℕ) (rounds : ℕ) (t : List ℕ)
    → (split_loop rounds ds none >>= λ v. ok (t ∷ v)) ≡ ok (t ∷ [])
unfolding split_loop
none_left ds zero t = refl
none_left ds (suc rounds) t = refl

split_loop-join :
    (rounds c : ℕ) (t : List ℕ) (ts : List (List ℕ))
    → AllFree c (t ∷ ts)
    → length ts < rounds
    → split_loop rounds (c ∷ []) (some (join c t ts)) ≡ ok (t ∷ ts)
unfolding split_loop
split_loop-join zero c t ts h few = absurd (omega arith)
split_loop-join (suc rounds) c t [] h few = rw (strsep_last c t h.0) (none_left (c ∷ []) rounds t)
split_loop-join (suc rounds) c t (u ∷ us) h few =
    rw (strsep_more c t (join c u us) h.0, split_loop-join rounds c u us h.1 (omega arith))

pub length-le-join : (c : ℕ) (t : List ℕ) (ts : List (List ℕ)) → length ts ≤ length (join c t ts)
length-le-join c t [] = omega arith
length-le-join c t (u ∷ us) =
    omega (arith, length-append t (c ∷ join c u us), length-le-join c u us)

-- Strings that have no `c` in them, joined by `c`, are what `split` at `c` gives back, where the
-- whole has no null byte and `c` is not null.
pub split-join :
    (c : ℕ) (t : List ℕ) (ts : List (List ℕ))
    → c ≢ 0
    → IsText (join c t ts)
    → AllFree c (t ∷ ts)
    → split (join c t ts) (c ∷ []) ≡ ok (t ∷ ts)
unfolding split
split-join c t ts ne text free =
    let delim : c_string (c ∷ []) ≡ c ∷ [] = c_string_whole (c ∷ []) (ne, tt) in
    rw (delim, c_string_whole (join c t ts) text)
      (split_loop-join (length (join c t ts) + 1) c t ts free
        (omega (arith, length-le-join c t ts)))

-- What `strsep` takes off: the whole string, or the part before the first delimiter.
abbrev Parts : ℕ → List ℕ → List ℕ × Option (List ℕ) → Type 0
Parts c str (t, none) = IsFree c str × (t ≡ str)
Parts c str (t, some rest) = IsFree c t × (str ≡ t ++ c ∷ rest)

strsep-Parts : (c : ℕ) (str : List ℕ) → Parts c str (strsep (c ∷ []) str)
unfolding strsep
strsep-Parts c [] = (tt, refl)
strsep-Parts c (x ∷ xs) = elim (Bool-cases (x == c)) [
  | inl here ↦ rw here (tt, ground arith)
  | inr other ↦ rw other (longer x (strsep (c ∷ []) xs) other (strsep-Parts c xs))
]
  where
    longer :
        (x : ℕ) (p : List ℕ × Option (List ℕ))
        → (x == c) ≡ false
        → Parts c xs p
        → Parts c (x ∷ xs) (x ∷ p.0, p.1)
    longer x (t, none) other h = ((other, h.0), ap (λ l. x ∷ l) h.1)
    longer x (t, some rest) other h = ((other, h.0), ap (λ l. x ∷ l) h.1)

-- A list of strings that joined by `c` gives `str`, with no `c` in them.
abbrev pub Splits : ℕ → List ℕ → List (List ℕ) → Type 0
Splits c str [] = ⊥
Splits c str (t ∷ ts) = AllFree c (t ∷ ts) × (join c t ts ≡ str)

Splits-cons :
    (c : ℕ) (t rest : List ℕ) (v : List (List ℕ))
    → IsFree c t
    → Splits c rest v
    → Splits c (t ++ c ∷ rest) (t ∷ v)
Splits-cons c t rest [] free h = absurd h
Splits-cons c t rest (u ∷ us) free (all, e) = ((free, all), ap (λ r. t ++ c ∷ r) e)

split_loop-Splits :
    (rounds c : ℕ) (str : List ℕ)
    → length str < rounds
    → Returns (split_loop rounds (c ∷ []) (some str)) (Splits c str)
unfolding split_loop
split_loop-Splits zero c str h = absurd (omega arith)
split_loop-Splits (suc rounds) c str h =
    taken (strsep (c ∷ []) str) (strsep-Parts c str) (λ rest. split_loop-Splits rounds c rest)
  where
    taken :
        (p : List ℕ × Option (List ℕ))
        → Parts c str p
        → ((rest : List ℕ)
            → length rest < rounds
            → Returns (split_loop rounds (c ∷ []) (some rest)) (Splits c rest))
        → Returns (split_loop rounds (c ∷ []) p.1 >>= λ v. ok (p.0 ∷ v)) (Splits c str)
    taken (t, none) (free, e) later = (t ∷ [], none_left (c ∷ []) rounds t, ((rw e free, tt), e))
    taken (t, some rest) (free, e) later =
        let (v, run, splits) =
          later rest (omega (arith, ap length e, length-append t (c ∷ rest))) in
        (t ∷ v, rw run, rw e (Splits-cons c t rest v free splits))

-- On any string without null bytes, and a delimiter that is not null, `split` ends: what it gives is
-- the string when joined by the delimiter, which is in none of the parts.
pub split-Splits : (c : ℕ) (s : List ℕ) → c ≢ 0 → IsText s → Returns (split s (c ∷ [])) (Splits c s)
unfolding split
split-Splits c s ne text =
    let delim : c_string (c ∷ []) ≡ c ∷ [] = c_string_whole (c ∷ []) (ne, tt) in
    rw (delim, c_string_whole s text) (split_loop-Splits (length s + 1) c s (omega arith))
