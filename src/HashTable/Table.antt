-- ===== src/HashTable/Table.antt =====
-- The class template `HashTable` of hash.h: two tables of chains, where the entries of the first are
-- moved to the second a few buckets at a time. A null `table` is the empty list, and `rehashidx` is
-- `none` for -1. Counts and sizes stay below 2 ^ 64 as long as the entries fit in memory, so the
-- sums and products of `unsigned long` are plain, but for those of `nextPower`; where the code
-- converts them to `int`, so does the model.
use yeyj_tcp_server.Base.{
  ℕ, zero, suc, ◌+◌, ◌-◌, ◌*◌, ◌/◌, ◌%◌, ◌^◌, Bool, true, false, ◌||◌, Option, none, some, List, [],
  ◌∷◌, ltb, leb, ◌==◌ as nat_eq, if◌then◌else◌, replicate, Run, ok, fault, endless, ◌>>=◌,
}
use yeyj_tcp_server.HashTable.Chains.{Chain}

-- `dictht`.
pub record Dictht {ℓ} (K V : Type ℓ) : Type ℓ where
  pub table : List (Chain K V)
  pub size : ℕ
  pub sizemask : ℕ
  pub used : ℕ

-- `dict`.
pub record Dict {ℓ} (K V : Type ℓ) : Type ℓ where
  pub ht0 : Dictht K V
  pub ht1 : Dictht K V
  pub rehashidx : Option ℕ
  pub iterators : ℕ

pub data Status : Type 0 where
  dict_ok dict_err : Status

-- Which of the two tables.
pub data Which : Type 0 where
  first second : Which

abbrev pub is_err : Status → Bool
is_err dict_ok = false
is_err dict_err = true

abbrev pub init_size : ℕ
init_size = 4

abbrev pub long_max : ℕ
long_max = 2 ^ 63 - 1

-- The buckets of a table whose indices an `int` holds, as `insertRaw` wants them.
abbrev pub most_buckets : ℕ
most_buckets = 2 ^ 31

-- The loop of `nextPower`, with the rounds that it may make: from 4 on, 62 doublings pass every
-- `size` below `LONG_MAX`.
unfoldable pub next_power_loop : ℕ → ℕ → ℕ → Run ℕ
next_power_loop zero i size = fault endless
next_power_loop (suc rounds) i size =
    let rest = next_power_loop rounds (i * 2 % 2 ^ 64) size in if leb size i then ok i else rest

unfoldable pub next_power : ℕ → Run ℕ
next_power size = if leb long_max size then ok long_max else next_power_loop 62 init_size size

abbrev pub is_null {ℓ} : {A : Type ℓ} → List A → Bool
is_null [] = true
is_null (x ∷ xs) = false

abbrev pub is_some {ℓ} : {A : Type ℓ} → Option A → Bool
is_some none = false
is_some (some a) = true

module _ {ℓ} {K V : Type ℓ} where
  abbrev pub no_table : Dictht K V
  no_table = record { table = []; size = 0; sizemask = 0; used = 0 }

  unfoldable pub new : Dict K V
  new = record { ht0 = no_table; ht1 = no_table; rehashidx = none; iterators = 0 }

  -- The result is the bit pattern of an `int`.
  unfoldable pub size : Dict K V → ℕ
  size d = (d.ht0.used + d.ht1.used) % 2 ^ 32

  unfoldable pub empty : Dict K V → Bool
  unfolding size
  empty d = nat_eq (size d) 0

  unfoldable pub clear : Dict K V → Dict K V
  clear d = record d { ht0 = no_table; ht1 = no_table; rehashidx = none; iterators = 0 }

  unfoldable pub is_rehashing : Dict K V → Bool
  is_rehashing d = is_some d.rehashidx

  abbrev pub table_of : Which → Dict K V → Dictht K V
  table_of first d = d.ht0
  table_of second d = d.ht1

  -- A table of `n` null pointers.
  abbrev pub fresh : ℕ → Dictht K V
  fresh n = record { table = replicate n []; size = n; sizemask = n - 1; used = 0 }

  unfoldable pub expand : Dict K V → ℕ → Run (Status × Dict K V)
  unfolding is_rehashing
  expand d size = do
    realsize ← next_power size
    if is_rehashing d || ltb size d.ht0.used
        then ok (dict_err, d)
        else if nat_eq realsize d.ht0.size
        then ok (dict_err, d)
        else if is_null d.ht0.table
        then ok (dict_ok, record d { ht0 = fresh realsize })
        else ok (dict_ok, record d { ht1 = fresh realsize; rehashidx = some 0 })

  unfoldable pub expand_if_needed : ℕ → Dict K V → Run (Status × Dict K V)
  unfolding is_rehashing
  expand_if_needed max_load_factor d =
      if is_rehashing d
      then ok (dict_ok, d)
      else if nat_eq d.ht0.size 0
      then expand d init_size
      else if ltb max_load_factor (d.ht0.used / d.ht0.size)
      then expand d (d.ht0.used * 2)
      else ok (dict_ok, d)
