-- ===== src/Clock/Dates.antt =====
-- The date and the time as text: different days have different dates, and the time fits its array
-- until the year 9999.
use yeyj_tcp_server.Base.{
  ◌⊎◌, inl, inr, Bool-cases, ltb, ℕ, ◌+◌, ◌≤◌, ◌<◌, ◌≡◌, refl, sym, ap, ◌∙◌, arith, true, false,
  List, [], ◌∷◌, ◌++◌, length, length-append, ok, fault, out_of_range, leb,
}
use yeyj_tcp_server.Buffer.Peek.{AllDigits, value}
use yeyj_tcp_server.Buffer.{is_digit}
use yeyj_tcp_server.Clock.{Tm, padded, get_date_as_string, time_text, update_time}
use yeyj_tcp_server.Clock.Padding.{
  decimal_short, decimal_long, length-padded, padded_full, padded-AllDigits, value-padded,
}
use yeyj_tcp_server.Text.Decimal.{decimal-AllDigits, value-decimal}
use yeyj_tcp_server.Text.{decimal}

-- Digits end at the first byte that is none.
digits_apart :
    (xs ys r r' : List ℕ) (s : ℕ)
    → AllDigits xs
    → AllDigits ys
    → is_digit s ≡ false
    → xs ++ s ∷ r ≡ ys ++ s ∷ r'
    → (xs ≡ ys) × (r ≡ r')
digits_apart [] [] r r' s dx dy stop h = (refl, cc h)
digits_apart [] (y ∷ ys) r r' s dx (dy, dys) stop h =
    let same : s ≡ y = cc h in absurd (cc (stop, ap is_digit same, dy))
digits_apart (x ∷ xs) [] r r' s (dx, dxs) dy stop h =
    let same : x ≡ s = cc h in absurd (cc (stop, ap is_digit same, dx))
digits_apart (x ∷ xs) (y ∷ ys) r r' s (dx, dxs) (dy, dys) stop h =
    let same : x ≡ y = cc h in
    let rest : xs ++ s ∷ r ≡ ys ++ s ∷ r' = cc h in
    let (heads, tails) = digits_apart xs ys r r' s dxs dys stop rest in
    (ap (λ z. z ∷ xs) same ∙ ap (λ zs. y ∷ zs) heads, tails)

year_digits : (y : ℕ) → padded b' ' 4 (y + 1900) ≡ decimal (y + 1900)
year_digits y = padded_full b' ' 4 (y + 1900) (decimal_long 3 (y + 1900) (omega arith))

padded_inj : (width m n : ℕ) → padded b'0' width m ≡ padded b'0' width n → m ≡ n
padded_inj width m n h = sym (value-padded width m) ∙ ap (value 0) h ∙ value-padded width n

-- Two times have the same date as text only where year, month and day of the month are the same.
-- (The daily rule of the log compares the texts.)
get_date_as_string_inj :
    (t u : Tm)
    → get_date_as_string t ≡ get_date_as_string u
    → (t.tm_year ≡ u.tm_year) × (t.tm_mon ≡ u.tm_mon) × (t.tm_mday ≡ u.tm_mday)
unfolding get_date_as_string is_digit
get_date_as_string_inj t u h =
    let rest : Tm → List ℕ = λ x. padded b'0' 2 (x.tm_mon + 1) ++ b'/' ∷ padded b'0' 2 x.tm_mday in
    let h' : (decimal (t.tm_year + 1900) ++ b'/' ∷ rest t)
        ≡ (decimal (u.tm_year + 1900) ++ b'/' ∷ rest u) =
      ap (λ y. y ++ b'/' ∷ rest t) (sym (year_digits t.tm_year))
      ∙ h
      ∙ ap (λ y. y ++ b'/' ∷ rest u) (year_digits u.tm_year) in
    let (years, others) =
      digits_apart (decimal (t.tm_year + 1900)) (decimal (u.tm_year + 1900)) (rest t) (rest u) b'/'
        (decimal-AllDigits (t.tm_year + 1900)) (decimal-AllDigits (u.tm_year + 1900)) refl h' in
    let (months, days) =
      digits_apart (padded b'0' 2 (t.tm_mon + 1)) (padded b'0' 2 (u.tm_mon + 1))
        (padded b'0' 2 t.tm_mday) (padded b'0' 2 u.tm_mday) b'/' (padded-AllDigits 2 (t.tm_mon + 1))
        (padded-AllDigits 2 (u.tm_mon + 1)) refl others in
    let year : t.tm_year + 1900 ≡ u.tm_year + 1900 =
      sym (value-decimal (t.tm_year + 1900))
      ∙ ap (value 0) years
      ∙ value-decimal (u.tm_year + 1900) in
    let month = padded_inj 2 (t.tm_mon + 1) (u.tm_mon + 1) months in
    (omega (arith, year), omega (arith, month), padded_inj 2 t.tm_mday u.tm_mday days)

-- The fields of a time that `localtime` gives.
pub record IsTime (t : Tm) : Type 0 where
  pub month : t.tm_mon < 12
  pub day : t.tm_mday ≤ 31
  pub hour : t.tm_hour < 24
  pub minute : t.tm_min < 60
  pub second : t.tm_sec ≤ 60

two : (n : ℕ) → n < 100 → length (padded b'0' 2 n) ≡ 2
two n h = length-padded b'0' 2 n (decimal_short 1 n h)

joined :
    (xs ys : List ℕ) (c m n : ℕ) → length xs ≡ m → length ys ≡ n → length (xs ++ c ∷ ys) ≡ m + 1 + n
joined xs ys c m n e f = length-append xs (c ∷ ys) ∙ omega arith

-- The year, and what follows it, of 15 bytes.
length-time_text :
    (t : Tm) → IsTime t → length (time_text t) ≡ length (decimal (t.tm_year + 1900)) + 1 + 14
unfolding time_text
length-time_text t v =
    joined (padded b' ' 4 (t.tm_year + 1900)) _ b'/' (length (decimal (t.tm_year + 1900))) 14
      (ap length (year_digits t.tm_year))
      (joined (padded b'0' 2 (t.tm_mon + 1)) _ b'/' 2 11
        (two (t.tm_mon + 1) (omega (arith, v.month)))
        (joined (padded b'0' 2 t.tm_mday) _ b' ' 2 8 (two t.tm_mday (omega (arith, v.day))) (
          joined (padded b'0' 2 t.tm_hour) _ b':' 2 5 (two t.tm_hour (omega (arith, v.hour))) (
            joined (padded b'0' 2 t.tm_min) (padded b'0' 2 t.tm_sec) b':' 2 2
              (two t.tm_min (omega (arith, v.minute))) (two t.tm_sec (omega (arith, v.second)))))))

-- Up to the year 9999, `updateTime` prints 19 bytes and the null byte, which the array holds; from the year 10000 on it writes past the array.
pub update_time_lem :
    (t : Tm)
    → IsTime t
    → ((t.tm_year < 8100) × (update_time t ≡ ok (time_text t)) × (length (time_text t) ≡ 19))
      ⊎ ((8100 ≤ t.tm_year) × (update_time t ≡ fault out_of_range))
unfolding update_time
update_time_lem t v =
    let y = t.tm_year + 1900 in
    let whole = length-time_text t v in
    elim (Bool-cases (ltb t.tm_year 8100)) [
      | inl early ↦
          let before : t.tm_year < 8100 = ground arith in
          let digits : length (decimal y) ≡ 4 =
            omega (arith, decimal_long 3 y (omega arith), decimal_short 3 y (omega arith)) in
          let fits : leb (length (time_text t) + 1) 20 ≡ true = ground arith in
          inl (before, rw fits, omega arith)
      | inr late ↦
          let after : 8100 ≤ t.tm_year = ground arith in
          let digits = decimal_long 4 y (omega arith) in
          let over : leb (length (time_text t) + 1) 20 ≡ false = ground arith in
          inr (after, rw over)
    ]
