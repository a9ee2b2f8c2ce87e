-- ===== src/Tests/Tables.antt =====
-- Runs of `HashTable`, and its theorems on a dictionary in the middle of rehashing.
use yeyj_tcp_server.Base.{
  as_int, to_int, mul_int, ℕ, zero, suc, ◌+◌, ◌≤◌, ◌<◌, ◌≡◌, ◌≢◌, refl, arith, Bool, true, false,
  not, if◌then◌else◌, ◌↔◌, Run, ◌>>=◌, [], ◌∷◌, Option, some, none, ok, Returns, store, at,
  replicate, get_or,
}
use yeyj_tcp_server.HashTable.Chains.{Key, find, unlink, set_value, has_next, hash_of, slot}
use yeyj_tcp_server.HashTable.Insertion.{Inserted, insert-Inserted}
use yeyj_tcp_server.HashTable.Lookup.{exist-view}
use yeyj_tcp_server.HashTable.Methods.{
  enter, walk, exist, on_chain, on_place, erase, insert_raw, insert, replace, subscript,
  subscript_get, subscript_set,
}
use yeyj_tcp_server.HashTable.Moves.{Keeps}
use yeyj_tcp_server.HashTable.Random.{
  pick_bucket, draw_bucket, get_random_entry, get_random_value, get_random_key,
}
use yeyj_tcp_server.HashTable.Rehash.{
  rehash_until, skip_empty, move_chain, move_bucket, rehash_loop, finish, rehash, rehash_step,
  step_if_rehashing, rehash_milliseconds,
}
use yeyj_tcp_server.HashTable.Removal.{Removes, erase-Removes}
use yeyj_tcp_server.HashTable.Steps.{Progress, rehash-Keeps}
use yeyj_tcp_server.HashTable.Placing.{Inserts}
use yeyj_tcp_server.HashTable.Subscript.{subscript_get-Inserts}
use mathlib.Core.Option.{or_else}
use yeyj_tcp_server.HashTable.Table.{
  Dictht, Dict, fresh, new, size, empty, clear, is_rehashing, is_some, next_power, next_power_loop,
  expand, expand_if_needed,
}
use yeyj_tcp_server.HashTable.Valid.{entries, no_entries, count, home, view, IsPlaced, IsValid}

same : Bool → Bool → Bool
same true b = b
same false b = not b

same_iff : (a b : Bool) → (same a b ≡ true) ↔ (a ≡ b)
unfolding same
same_iff true true = (λ h. refl, λ h. refl)
same_iff true false = (λ h. absurd (cc h), λ h. absurd (cc h))
same_iff false true = (λ h. absurd (cc h), λ h. absurd (cc h))
same_iff false false = (λ h. refl, λ h. refl)

-- keys whose hashes are 1 and 2
instance abbrev bool_key : Key Bool
bool_key = record { hash = λ b. if b then 1 else 2; equal = same; equal_iff = same_iff }

-- in the middle of rehashing: bucket 0 has been passed
abbrev old_table : Dictht Bool ℕ
old_table = record {
  table = [] ∷ ((true, 10) ∷ []) ∷ ((false, 20) ∷ []) ∷ [] ∷ [];
  size = 4;
  sizemask = 3;
  used = 2;
}

abbrev moving : Dict Bool ℕ
moving = record { ht0 = old_table; ht1 = fresh 8; rehashidx = some 1; iterators = 0 }

old_homes : (q : Bool) (i : ℕ) → i ≢ slot q 3 → count q (get_or old_table.table i []) ≡ 0
unfolding count slot hash_of same
old_homes q zero ne = refl
old_homes true (suc zero) ne = absurd (ne refl)
old_homes false (suc zero) ne = refl
old_homes true (suc (suc zero)) ne = refl
old_homes false (suc (suc zero)) ne = absurd (ne refl)
old_homes q (suc (suc (suc zero))) ne = refl
old_homes q (suc (suc (suc (suc i)))) ne = refl

old_table-IsPlaced : IsPlaced old_table
unfolding entries
old_table-IsPlaced = record {
  width = refl;
  within = omega arith;
  mask = λ h. refl;
  counted = refl;
  homes = old_homes;
}

blank_table-IsPlaced : IsPlaced {K = Bool} {V = ℕ} (fresh 8)
unfolding entries count
blank_table-IsPlaced = record {
  width = refl;
  within = omega arith;
  mask = λ h. refl;
  counted = refl;
  homes = λ q i ne. rw (no_entries (replicate 8 []) i refl);
}

moving_once : (q : Bool) → count q (home moving.ht0 q) + count q (home moving.ht1 q) ≤ 1
unfolding count slot hash_of same
moving_once true = omega arith
moving_once false = omega arith

moving-IsValid : IsValid moving
moving-IsValid = record {
  placed0 = old_table-IsPlaced;
  placed1 = blank_table-IsPlaced;
  once = moving_once;
  mode = ((omega arith, omega arith), passed);
}
  where
    passed : (i : ℕ) → i < 1 → get_or old_table.table i [] ≡ []
    passed zero h = refl
    passed (suc i) h = absurd (omega arith)

rehash-Keeps_example : Returns (rehash 1 moving) (λ res. Keeps moving res.1 × Progress 1 res)
rehash-Keeps_example = rehash-Keeps 1 1 moving moving-IsValid refl (omega arith) (omega arith)

exist-view_example :
    Returns (exist true moving) (λ res. (res.0 ≡ is_some (view moving true)) × Keeps moving res.1)
exist-view_example = exist-view true moving moving-IsValid (omega arith)

erase-Removes_example : Returns (erase true moving) (λ d'. Removes true moving d')
erase-Removes_example = erase-Removes true moving moving-IsValid

-- two keys in a new dictionary, one of them changed, the other removed
abbrev session : Run (ℕ × Bool × ℕ)
session = do
  (s, d) ← insert 5 0 true 10 new
  (s', d) ← insert 5 0 false 20 d
  (n, d) ← replace 5 0 true 30 d
  d ← subscript_set 5 0 false 40 d
  (v, d) ← subscript_get 5 0 true d
  d ← erase true d
  (here, d) ← exist true d
  (w, d) ← get_random_value (2 ∷ 0 ∷ []) d
  (k, d) ← get_random_key (2 ∷ 0 ∷ []) d
  ok (v + w, here, size d)

session_runs : session ≡ ok (70, false, 1)
unfolding same hash_of slot find unlink set_value has_next walk exist on_chain on_place erase
    insert_raw enter as_int to_int mul_int insert replace subscript subscript_get subscript_set
    pick_bucket draw_bucket get_random_entry get_random_value get_random_key skip_empty move_chain
    move_bucket rehash_loop finish rehash rehash_step step_if_rehashing new size empty is_rehashing
    next_power next_power_loop expand expand_if_needed store at
session_runs = refl

abbrev timed : Run (ℕ × Option ℕ)
timed = do (n, d) ← rehash_milliseconds 1 (1 ∷ []) moving; ok (n, d.rehashidx)

timed_runs : timed ≡ ok (0, none)
unfolding same hash_of slot skip_empty move_chain move_bucket rehash_loop finish rehash
    rehash_milliseconds rehash_until mul_int store at
timed_runs = refl

clear_lem : clear moving ≡ new
unfolding clear new
clear_lem = refl

insert-Inserted_example : Returns (insert 5 0 true 30 moving) (Inserted true 30 moving)
insert-Inserted_example = insert-Inserted 5 0 true 30 moving moving-IsValid (omega arith)

subscript_get-Inserts_example :
    Returns
      (subscript_get 5 0 false moving)
      (λ r. (some r.0 ≡ or_else (view moving false) (some 0)) × Inserts false 0 moving r.1)
subscript_get-Inserts_example = subscript_get-Inserts 5 0 false moving moving-IsValid (omega arith)
