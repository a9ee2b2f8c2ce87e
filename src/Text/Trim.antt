-- ===== src/Text/Trim.antt =====
-- `trim` takes the blanks off both ends of a string.
use native.Mathlib.Decide.{ℕ_discrete}
use yeyj_tcp_server.Base.{
  ℕ, zero, suc, ◌+◌, ◌-◌, ◌≤◌, ◌<◌, ◌≡◌, arith, true, false, List, [], ◌∷◌, ◌++◌, length,
  length-append, get_or, take-append, drop-append,
}
use yeyj_tcp_server.Text.{is_space, ltrim_loop, ltrim, rtrim_loop, rtrim, trim}

abbrev pub AllSpaces : List ℕ → Type 0
AllSpaces [] = Unit {0}
AllSpaces (c ∷ cs) = (is_space c ≡ true) × AllSpaces cs

abbrev pub StartsSolid : List ℕ → Type 0
StartsSolid [] = ⊥
StartsSolid (c ∷ cs) = is_space c ≡ false

abbrev pub EndsSolid : List ℕ → Type 0
EndsSolid [] = ⊥
EndsSolid (c ∷ []) = is_space c ≡ false
EndsSolid (c ∷ d ∷ cs) = EndsSolid (d ∷ cs)

ltrim_loop_lem :
    (pre w : List ℕ) (i : ℕ)
    → AllSpaces pre
    → StartsSolid w
    → ltrim_loop (pre ++ w) i ≡ i + length pre + 1
unfolding ltrim_loop
ltrim_loop_lem [] [] i h k = absurd k
ltrim_loop_lem [] (c ∷ cs) i h k = rw k (omega arith)
ltrim_loop_lem (c ∷ cs) w i h k = rw h.0 (omega (arith, ltrim_loop_lem cs w (i + 1) h.1 k))

ltrim_lem : (pre w : List ℕ) → AllSpaces pre → StartsSolid w → ltrim (pre ++ w) ≡ w
unfolding ltrim
ltrim_lem [] [] h k = absurd k
ltrim_lem [] (c ∷ cs) h k =
    let e : ltrim_loop (c ∷ cs) 0 - 1 ≡ 0 = omega (arith, ltrim_loop_lem [] (c ∷ cs) 0 h k) in rw e
ltrim_lem (c ∷ cs) w h k =
    let e : ltrim_loop (c ∷ cs ++ w) 0 - 1 ≡ length (c ∷ cs) =
      omega (arith, ltrim_loop_lem (c ∷ cs) w 0 h k) in
    drop-append (c ∷ cs) w (ltrim_loop (c ∷ cs ++ w) 0 - 1) e

space_at :
    (w post : List ℕ) (i : ℕ)
    → AllSpaces post
    → length w ≤ i
    → i < length w + length post
    → is_space (get_or (w ++ post) i 0) ≡ true
space_at [] [] i h a b = absurd (omega arith)
space_at [] (c ∷ cs) zero h a b = h.0
space_at [] (c ∷ cs) (suc i) h a b = space_at [] cs i h.1 (omega arith) (omega arith)
space_at (x ∷ w) post zero h a b = absurd (omega arith)
space_at (x ∷ w) post (suc i) h a b = space_at w post i h (omega arith) (omega arith)

solid_at :
    (w post : List ℕ) (i : ℕ)
    → EndsSolid w
    → i + 1 ≡ length w
    → is_space (get_or (w ++ post) i 0) ≡ false
solid_at [] post i h e = absurd h
solid_at (c ∷ []) post zero h e = h
solid_at (c ∷ []) post (suc i) h e = absurd (omega arith)
solid_at (c ∷ d ∷ cs) post zero h e = absurd (omega arith)
solid_at (c ∷ d ∷ cs) post (suc i) h e = solid_at (d ∷ cs) post i h (omega arith)

rtrim_loop_lem :
    (w post : List ℕ) (i : ℕ)
    → EndsSolid w
    → AllSpaces post
    → length w ≤ i
    → i ≤ length w + length post
    → rtrim_loop (w ++ post) i + 1 ≡ length w
unfolding rtrim_loop
rtrim_loop_lem [] post i h k a b = absurd h
rtrim_loop_lem (c ∷ cs) post zero h k a b = absurd (omega arith)
rtrim_loop_lem (c ∷ cs) post (suc i) h k a b = elim (ℕ_discrete (length (c ∷ cs)) (suc i)) [
  | yes e ↦ rw (solid_at (c ∷ cs) post i h (omega arith)) (omega arith)
  | no ne ↦
      rw (space_at (c ∷ cs) post i k (omega arith) (omega arith))
        (rtrim_loop_lem (c ∷ cs) post i h k (omega arith) (omega arith))
]

rtrim_lem : (w post : List ℕ) → EndsSolid w → AllSpaces post → rtrim (w ++ post) ≡ w
unfolding rtrim
rtrim_lem [] post h k = absurd h
rtrim_lem (c ∷ cs) post h k =
    let s = c ∷ cs ++ post in
    take-append (c ∷ cs) post (rtrim_loop s (length s) + 1) (
      rtrim_loop_lem (c ∷ cs) post (length s) h k (omega (arith, length-append cs post))
        (omega (arith, length-append cs post)))

StartsSolid-append : (w post : List ℕ) → StartsSolid w → StartsSolid (w ++ post)
StartsSolid-append [] post h = absurd h
StartsSolid-append (c ∷ cs) post h = h

-- `trim` of a string that begins and ends with a byte that is no blank gives the string, whatever
-- blanks stand before and behind it.
pub trim_lem :
    (pre w post : List ℕ)
    → AllSpaces pre
    → StartsSolid w
    → EndsSolid w
    → AllSpaces post
    → trim (pre ++ (w ++ post)) ≡ w
unfolding trim
trim_lem pre w post a b c d =
    rw (ltrim_lem pre (w ++ post) a (StartsSolid-append w post b)) (rtrim_lem w post c d)

blanks_loop : (s : List ℕ) (i : ℕ) → AllSpaces s → ltrim_loop s i ≡ i + length s
unfolding ltrim_loop
blanks_loop [] i h = omega arith
blanks_loop (c ∷ cs) i h = rw h.0 (omega (arith, blanks_loop cs (i + 1) h.1))

ltrim_blanks : (s : List ℕ) (c : ℕ) → AllSpaces (s ++ c ∷ []) → ltrim (s ++ c ∷ []) ≡ c ∷ []
unfolding ltrim
ltrim_blanks [] c h =
    let e : ltrim_loop (c ∷ []) 0 - 1 ≡ 0 = omega (arith, blanks_loop (c ∷ []) 0 h) in rw e
ltrim_blanks (x ∷ s) c h =
    let w = x ∷ s ++ c ∷ [] in
    let e : ltrim_loop w 0 - 1 ≡ length (x ∷ s) =
      omega (arith, blanks_loop w 0 h, length-append s (c ∷ [])) in
    drop-append (x ∷ s) (c ∷ []) (ltrim_loop w 0 - 1) e

rtrim_blank : (c : ℕ) → is_space c ≡ true → rtrim (c ∷ []) ≡ c ∷ []
unfolding rtrim
rtrim_blank c h = rw h

-- `trim` of a string of blanks leaves its last blank.
pub trim_blanks : (s : List ℕ) (c : ℕ) → AllSpaces (s ++ c ∷ []) → trim (s ++ c ∷ []) ≡ c ∷ []
unfolding trim
trim_blanks s c h = rw (ltrim_blanks s c h) (rtrim_blank c (last_space s h))
  where
    last_space : (s : List ℕ) → AllSpaces (s ++ c ∷ []) → is_space c ≡ true
    last_space [] h = h.0
    last_space (x ∷ s) h = last_space s h.1
