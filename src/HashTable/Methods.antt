-- ===== src/HashTable/Methods.antt =====
-- The methods of `HashTable` that look up, add and remove a key.
use yeyj_tcp_server.Base.{
  ℕ, ◌+◌, ◌-◌, Bool, true, false, ◌&&◌, Option, none, some, ◌∷◌, zero, suc, out_of_range, ℤ, pos,
  negsuc, as_int, ◌==◌ as nat_eq, if◌then◌else◌, Run, ok, fault, null_pointer, dangling, ◌>>=◌, at,
  store,
}
use yeyj_tcp_server.HashTable.Chains.{Key, Chain, slot, find, unlink, set_value, has_next}
use yeyj_tcp_server.HashTable.Table.{
  Dictht, Dict, Status, dict_ok, dict_err, Which, first, second, is_err, is_some, empty,
  is_rehashing, table_of, expand_if_needed,
}
use yeyj_tcp_server.HashTable.Rehash.{step_if_rehashing}

module _ {ℓ} {K V : Type ℓ} ⦃key : Key K⦄ where
  -- Where the walk over the chains of a key ends: at an entry of one of the tables, or nowhere.
  -- `erase`, `exist` and `keyIndex` make this walk; the second table counts while rehashing.
  unfoldable pub walk : K → Dict K V → Run (Option Which)
  unfolding is_rehashing
  walk k d = do
    c ← at d.ht0.table (slot k d.ht0.sizemask)
    let second_table = (do
      c' ← at d.ht1.table (slot k d.ht1.sizemask)
      ok (if is_some (find k c') then some second else none))
    if is_some (find k c) then ok (some first) else if is_rehashing d then second_table else ok none

  unfoldable pub exist : K → Dict K V → Run (Bool × Dict K V)
  exist k d =
      let look = (do d' ← step_if_rehashing d; place ← walk k d'; ok (is_some place, d')) in
      if empty d then ok (false, d) else look

  -- A change `f` of the chain of `k` in one of the tables, and of the count of its entries.
  unfoldable pub on_chain : (Chain K V → Chain K V) → (ℕ → ℕ) → K → Dictht K V → Run (Dictht K V)
  on_chain f counts k h = do
    c ← at h.table (slot k h.sizemask)
    t ← store h.table (pos (slot k h.sizemask)) (f c)
    ok (record h { table = t; used = counts h.used })

  unfoldable pub on_place :
      Which → (Chain K V → Chain K V) → (ℕ → ℕ) → K → Dict K V → Run (Dict K V)
  unfolding on_chain
  on_place first f counts k d = do h ← on_chain f counts k d.ht0; ok (record d { ht0 = h })
  on_place second f counts k d = do h ← on_chain f counts k d.ht1; ok (record d { ht1 = h })

  unfoldable pub erase : K → Dict K V → Run (Dict K V)
  erase k d =
      let remove = (do
        d' ← step_if_rehashing d
        place ← walk k d'
        elim place [ none ↦ ok d' | some t ↦ on_place t (unlink k) (λ n. n - 1) k d' ]) in
      if nat_eq d.ht0.used 0 && nat_eq d.ht1.used 0 then ok d else remove

  -- The end of `insertRaw`, where `keyIndex` has met no entry: the unsigned index of the bucket has
  -- become an `int`. A bucket with the index -1 is taken for an entry that exists, and a lower index
  -- is outside the table.
  unfoldable pub enter : ℤ → Which → V → K → Dict K V → Run (Bool × Option Which × Dict K V)
  enter (pos index) t blank k d = do
    d' ← on_place t (λ c. (k, blank) ∷ c) (λ n. n + 1) k d
    ok (true, some t, d')
  enter (negsuc zero) t blank k d = ok (false, none, d)
  enter (negsuc (suc n)) t blank k d = fault out_of_range

  -- `insertRaw`: the table of the entry of `k`, and whether that is a new one. A new entry stands
  -- at the head of its chain, with the value `blank` of `ValueType`'s default constructor.
  -- Where `keyIndex` has returned -1 without an entry there is none to return.
  unfoldable pub insert_raw : ℕ → V → K → Dict K V → Run (Bool × Option Which × Dict K V)
  unfolding is_rehashing
  insert_raw max_load_factor blank k d = do
    d₁ ← step_if_rehashing d
    (status, d₂) ← expand_if_needed max_load_factor d₁
    let search = (do
      place ← walk k d₂
      let t = if is_rehashing d₂ then second else first
      elim place [
        | some found ↦ ok (false, some found, d₂)
        | none ↦ enter (as_int (slot k (table_of t d₂).sizemask)) t blank k d₂
      ])
    if is_err status then ok (false, none, d₂) else search

  unfoldable pub insert : ℕ → V → K → V → Dict K V → Run (Status × Dict K V)
  insert max_load_factor blank k v d = do
    (fresh_entry, place, d') ← insert_raw max_load_factor blank k d
    let write =
        (λ (t : Which). do d'' ← on_place t (set_value k v) (λ n. n) k d'; ok (dict_ok, d''))
    if fresh_entry
        then elim place [ none ↦ fault null_pointer | some t ↦ write t ]
        else ok (dict_err, d')

  -- `replace` on a key that exists copies the entry, `next` pointer included, into a local one,
  -- whose destructor deletes the rest of the chain while the table still points to it.
  unfoldable pub replace : ℕ → V → K → V → Dict K V → Run (ℕ × Dict K V)
  replace max_load_factor blank k v d = do
    (fresh_entry, place, d') ← insert_raw max_load_factor blank k d
    elim place [
      | none ↦ fault null_pointer
      | some t ↦ do
        c ← at (table_of t d').table (slot k (table_of t d').sizemask)
        d'' ← on_place t (set_value k v) (λ n. n) k d'
        if fresh_entry then ok (1, d'') else if has_next k c then fault dangling else ok (0, d'')
    ]

  -- `operator[]`: the reference that it returns is the entry of `k` in a table.
  unfoldable pub subscript : ℕ → V → K → Dict K V → Run (Which × Dict K V)
  subscript max_load_factor blank k d = do
    (fresh_entry, place, d') ← insert_raw max_load_factor blank k d
    elim place [ none ↦ fault null_pointer | some t ↦ ok (t, d') ]

  -- `d[k]` as a value, and `d[k] = v`.
  unfoldable pub subscript_get : ℕ → V → K → Dict K V → Run (V × Dict K V)
  subscript_get max_load_factor blank k d = do
    (t, d') ← subscript max_load_factor blank k d
    c ← at (table_of t d').table (slot k (table_of t d').sizemask)
    elim (find k c) [ none ↦ fault null_pointer | some v ↦ ok (v, d') ]

  unfoldable pub subscript_set : ℕ → V → K → V → Dict K V → Run (Dict K V)
  subscript_set max_load_factor blank k v d = do
    (t, d') ← subscript max_load_factor blank k d
    on_place t (set_value k v) (λ n. n) k d'
