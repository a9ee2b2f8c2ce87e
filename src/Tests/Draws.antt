-- ===== src/Tests/Draws.antt =====
-- `getRandomEntry`, `replace` and `evictRandomN`, at concrete dictionaries.
use mathlib.Core.Option.{or_else}
use yeyj_tcp_server.Base.{
  ◌≤◌, int_max, ◌⊎◌, ℕ, zero, suc, ◌≡◌, refl, sym, ◌∙◌, arith, false, Bool-cases, inl, inr,
  ◌==◌ as nat_eq, List, [], ◌∷◌, none, some, ok, pos, get_or, Returns, Safe, Option-cases,
}
use yeyj_tcp_server.Connection.{Connection}
use yeyj_tcp_server.Base.{if◌then◌else◌, fault, dangling, true, false}
use yeyj_tcp_server.HashTable.Assigning.{Assigns}
use yeyj_tcp_server.HashTable.Replacing.{replace-Assigns}
use yeyj_tcp_server.HashTable.Chains.{has_next, find, slot}
use yeyj_tcp_server.HashTable.Chances.{get_random_entry-returns}
use yeyj_tcp_server.HashTable.Drawing.{IsDrawn, get_random_entry-IsDrawn}
use yeyj_tcp_server.HashTable.Methods.{insert_raw, replace}
use yeyj_tcp_server.HashTable.Random.{get_random_entry}
use yeyj_tcp_server.HashTable.Table.{Which, table_of, Dict, is_some, no_table}
use yeyj_tcp_server.HashTable.Valid.{home, view}
use yeyj_tcp_server.Tests.Workers.{number_key, one, one_table, one-IsValid, working, server}
use yeyj_tcp_server.Worker.Culling.{evict_random_n-Evicts}
use yeyj_tcp_server.Worker.Leaving.{IsDue, Evicts}
use yeyj_tcp_server.Worker.Service.{IsKept}
use yeyj_tcp_server.Worker.{Pointer, evict_random_n, put_at}

get_random_entry-IsDrawn_example : Safe (get_random_entry (3 ∷ 0 ∷ []) one) (IsDrawn one)
get_random_entry-IsDrawn_example =
    get_random_entry-IsDrawn (3 ∷ 0 ∷ []) one one-IsValid refl (omega arith)

get_random_entry-returns_example :
    (r : ℕ) × (r ≤ int_max)
    × ((s : ℕ) (rest : List ℕ) → Returns (get_random_entry (r ∷ s ∷ rest) one) (IsDrawn one))
get_random_entry-returns_example =
    get_random_entry-returns one one-IsValid refl (omega arith) (omega arith)

-- the only entry of the table
one_found :
    (q i : ℕ) (p : Pointer) → find q (get_or one_table.table i []) ≡ some p → (q ≡ 7) × (p ≡ some 0)
unfolding find
one_found q zero p h = absurd (cc h)
one_found q (suc zero) p h = absurd (cc h)
one_found q (suc (suc zero)) p h = absurd (cc h)
one_found q (suc (suc (suc zero))) p h = elim (Bool-cases (nat_eq q 7)) [
  | inl there ↦ let h' : some (some 0) ≡ some p = rw there at h in (ground arith, sym (cc h'))
  | inr apart ↦ let h' : none ≡ some p = rw apart at h in absurd (cc h')
]
one_found q (suc (suc (suc (suc i)))) p h = absurd (cc h)

none_in : (q : ℕ) (p : Pointer) → find q (home no_table q) ≡ some p → ⊥
unfolding find
none_in q p h = absurd (cc h)

one-view : (q : ℕ) (p : Pointer) → view one q ≡ some p → (q ≡ 7) × (p ≡ some 0)
unfolding view or_else
one-view q p h = elim (Option-cases (find q (home one_table q))) [
  | inl missing ↦
      let h' : find q (home no_table q) ≡ some p = rw missing at h in absurd (none_in q p h')
  | inr (x, there) ↦
      let h' : some x ≡ some p = rw there at h in one_found q (slot q 3) p (there ∙ h')
]

IsOpen : Connection → Type 0
IsOpen c = c.closed ≡ false

working-IsKept : IsKept IsOpen working
unfolding IsOpen put_at
working-IsKept = record {
  valid = one-IsValid;
  free = refl;
  kept = λ k p there.
      (let (is_seven, is_first) = one-view k p there in (0, is_first, sym is_seven, refl));
}

evict_random_n-Evicts_example :
    Safe
      (evict_random_n server (λ n. 3 ∷ 0 ∷ []) 5 (pos 1) false working)
      (Evicts (IsDue server false 5) working)
evict_random_n-Evicts_example =
    evict_random_n-Evicts IsOpen (λ c h. (unfold IsOpen in h)) server false 5 (λ n. 3 ∷ 0 ∷ [])
      (pos 1) working working-IsKept (omega arith)

replace-Assigns_example :
    (d' : Dict ℕ Pointer) × Assigns 7 (some 2) one d'
    × (((is_some (view one 7) ≡ false) × (replace 5 none 7 (some 2) one ≡ ok (1, d')))
        ⊎ ((is_some (view one 7) ≡ true)
            × (t : Which) × (d₁ : Dict ℕ Pointer) × (insert_raw 5 none 7 one
                ≡ ok (false, some t, d₁))
            × (find 7 (home (table_of t d₁) 7) ≡ view one 7)
            × (replace 5 none 7 (some 2) one
                ≡ (if has_next 7 (home (table_of t d₁) 7) then fault dangling else ok (0, d')))))
replace-Assigns_example = replace-Assigns 5 none 7 (some 2) one one-IsValid (omega arith)
