-- ===== src/Server/Entries.antt =====
-- A configuration file of entries, comments and empty lines: what `loadConfig` makes of it.
use mathlib.Core.List.{map}
use yeyj_tcp_server.Base.{
  ℕ, ◌≡◌, ◌≢◌, refl, sym, ap, ◌∙◌, arith, none, some, List, [], ◌∷◌, ◌++◌, append-nil, length, Run,
  ok, fault, ◌>>=◌,
}
use yeyj_tcp_server.Server.Config.{Config, ConfigKey, key_name, apply_entry}
use yeyj_tcp_server.Server.Load.{load_line, load_config, apply_parts, apply_key}
use yeyj_tcp_server.Text.Decimal.{IsText}
use yeyj_tcp_server.Text.Split.{IsFree, AllFree, join, split-join}
use yeyj_tcp_server.Text.Trim.{trim_lem}
use yeyj_tcp_server.Text.{is_space, trim, split}
use yeyj_tcp_server.Server.Keys.{IsEntry, IsWord, key_name-first_key, key_name-IsWord}
use yeyj_tcp_server.Server.Reading.{load_lines, load_config-load_lines, load_line_entry}

IsFree-append : (c : ℕ) (a b : List ℕ) → IsFree c a → IsFree c b → IsFree c (a ++ b)
IsFree-append c [] b h k = k
IsFree-append c (x ∷ xs) b h k = (h.0, IsFree-append c xs b h.1 k)

IsText-append : (a b : List ℕ) → IsText a → IsText b → IsText (a ++ b)
IsText-append [] b h k = k
IsText-append (x ∷ xs) b h k = (h.0, IsText-append xs b h.1 k)

IsEntry-append : (a b : List ℕ) → IsEntry a → IsEntry (a ++ b)
IsEntry-append [] b h = absurd h
IsEntry-append (c ∷ cs) b h = h

-- A line of a configuration file: empty, a comment, or `key = value`.
pub data Item : Type 0 where
  empty_line : Item
  comment : List ℕ → Item
  entry : ConfigKey → List ℕ → Item

abbrev pub entry_line : ConfigKey → List ℕ → List ℕ
entry_line k v = (key_name k ++ b' ' ∷ []) ++ b'=' ∷ (b' ' ∷ v)

abbrev pub item_line : Item → List ℕ
item_line empty_line = []
item_line (comment cs) = b'#' ∷ cs
item_line (entry k v) = entry_line k v

abbrev pub IsItem : Item → Type 0
IsItem empty_line = Unit {0}
IsItem (comment cs) = IsFree b'\n' cs
IsItem (entry k v) = IsWord v

-- What an item means, and a list of them in this order.
abbrev pub apply_item : Item → Config → Run Config
apply_item empty_line g = ok g
apply_item (comment cs) g = ok g
apply_item (entry k v) g = apply_entry k v g

abbrev pub apply_items : List Item → Config → Run Config
apply_items [] g = ok g
apply_items (i ∷ is) g = apply_item i g >>= apply_items is

abbrev pub AllItems : List Item → Type 0
AllItems [] = Unit {0}
AllItems (i ∷ is) = IsItem i × AllItems is

entry_parts :
    (k : ConfigKey) (v : List ℕ)
    → IsWord v
    → split (entry_line k v) (b'=' ∷ []) ≡ ok ((key_name k ++ b' ' ∷ []) ∷ (b' ' ∷ v) ∷ [])
entry_parts k v h =
    let w = (key_name-IsWord k).0 in
    let key = key_name k ++ b' ' ∷ [] in
    split-join b'=' key ((b' ' ∷ v) ∷ []) (omega arith)
      (IsText-append key (b'=' ∷ b' ' ∷ v)
        (IsText-append (key_name k) (b' ' ∷ []) w.text (omega arith, tt))
        (omega arith, (omega arith, h.text)))
      (
        IsFree-append b'=' (key_name k) (b' ' ∷ []) w.no_equals (refl, tt),
        ((refl, h.no_equals), tt),
      )

apply_entry_parts :
    (k : ConfigKey) (v : List ℕ) (g : Config)
    → IsWord v
    → apply_parts ((key_name k ++ b' ' ∷ []) ∷ (b' ' ∷ v) ∷ []) g
      ≡ (apply_entry k v g >>= λ g'. ok (some g'))
unfolding apply_parts apply_key is_space
apply_entry_parts k v g h =
    let w = (key_name-IsWord k).0 in
    let key : trim (key_name k ++ b' ' ∷ []) ≡ key_name k =
      trim_lem [] (key_name k) (b' ' ∷ []) tt w.starts w.ends (refl, tt) in
    let value : trim (b' ' ∷ v) ≡ v =
      ap (λ t. trim (b' ' ∷ t)) (sym (append-nil v))
      ∙ trim_lem (b' ' ∷ []) v [] (refl, tt) h.starts h.ends tt in
    rw (key, value, key_name-first_key k)

load_line-item :
    (i : Item) (g : Config)
    → IsItem i
    → load_line (item_line i) g ≡ (apply_item i g >>= λ g'. ok (some g'))
unfolding load_line
load_line-item empty_line g h = refl
load_line-item (comment cs) g h = refl
load_line-item (entry k v) g h =
    load_line_entry (entry_line k v) g (
      IsEntry-append (key_name k ++ b' ' ∷ []) (b'=' ∷ (b' ' ∷ v))
        (IsEntry-append (key_name k) (b' ' ∷ []) (key_name-IsWord k).1))
    ∙ ap (λ r. r >>= λ parts. apply_parts parts g) (entry_parts k v h)
    ∙ apply_entry_parts k v g h

-- Items, and lines behind them that stop the reading or are none.
load_lines-items :
    (items : List Item) (lines : List (List ℕ)) (g : Config)
    → AllItems items
    → ((g : Config) → load_lines lines g ≡ ok g)
    → load_lines (map item_line items ++ lines) g ≡ apply_items items g
load_lines-items [] lines g h stop = stop g
load_lines-items (i ∷ is) lines g h stop =
    ap
      (λ r. r >>= λ o. elim o [ none ↦ ok g | some g' ↦ load_lines (map item_line is ++ lines) g' ])
      (load_line-item i g h.0)
    ∙ onwards (apply_item i g) (λ g'. load_lines-items is lines g' h.1 stop)
  where
    onwards :
        (r : Run Config)
        → ((g' : Config) → load_lines (map item_line is ++ lines) g' ≡ apply_items is g')
        → ((r >>= λ g'. ok (some g')) >>= λ o. elim o [
          | none ↦ ok g
          | some g' ↦ load_lines (map item_line is ++ lines) g'
        ])
          ≡ (r >>= apply_items is)
    onwards (fault why) later = refl
    onwards (ok g') later = later g'

item_line-IsFree : (i : Item) → IsItem i → IsFree b'\n' (item_line i)
item_line-IsFree empty_line h = tt
item_line-IsFree (comment cs) h = (refl, h)
item_line-IsFree (entry k v) h =
    IsFree-append b'\n' (key_name k ++ b' ' ∷ []) (b'=' ∷ (b' ' ∷ v))
      (IsFree-append b'\n' (key_name k) (b' ' ∷ []) (key_name-IsWord k).0.no_newline (refl, tt))
      (refl, (refl, h.no_newline))

items-AllFree : (items : List Item) → AllItems items → AllFree b'\n' (map item_line items)
items-AllFree [] h = tt
items-AllFree (i ∷ is) h = (item_line-IsFree i h.0, items-AllFree is h.1)

-- A file of one line or more, each of them empty, a comment, or `key = value` with a key that
-- `loadConfig` knows and a value that begins and ends with no blank and has no `=`, newline or null
-- byte: the settings are those that the entries give, applied one after the other, up to the first
-- whose value is refused.
pub load_config-apply_items :
    (item : Item) (items : List Item) (g : Config)
    → AllItems (item ∷ items)
    → load_config (some (join b'\n' (item_line item) (map item_line items))) g
      ≡ apply_items (item ∷ items) g
load_config-apply_items item items g h =
    load_config-load_lines (item_line item) (map item_line items) g (items-AllFree (item ∷ items) h)
    ∙ ap (λ ls. load_lines (item_line item ∷ ls) g) (sym (append-nil (map item_line items)))
    ∙ load_lines-items (item ∷ items) [] g h (λ g. refl)

AllFree-append :
    (c : ℕ) (xs ys : List (List ℕ)) → AllFree c xs → AllFree c ys → AllFree c (xs ++ ys)
AllFree-append c [] ys h k = k
AllFree-append c (x ∷ xs) ys h k = (h.0, AllFree-append c xs ys h.1 k)

-- A line that is neither empty nor a comment, and in which the number of `=` is not one, ends the
-- reading.
load_lines_stop :
    (part : List ℕ) (parts lines : List (List ℕ)) (g : Config)
    → AllFree b'=' (part ∷ parts)
    → IsText (join b'=' part parts)
    → IsEntry (join b'=' part parts)
    → length parts ≢ 1
    → load_lines (join b'=' part parts ∷ lines) g ≡ ok g
unfolding apply_parts
load_lines_stop part parts lines g free text is_entry bad =
    let line = join b'=' part parts in
    let stops : load_line line g ≡ ok none =
      load_line_entry line g is_entry
      ∙ ap (λ r. r >>= λ v. apply_parts v g) (split-join b'=' part parts (omega arith) text free)
      ∙ refused parts bad in
    ap (λ r. r >>= λ o. elim o [ none ↦ ok g | some g' ↦ load_lines lines g' ]) stops
  where
    refused : (ps : List (List ℕ)) → length ps ≢ 1 → apply_parts (part ∷ ps) g ≡ ok none
    refused [] h = refl
    refused (p ∷ []) h = absurd (h refl)
    refused (p ∷ q ∷ ps) h = refl

-- A file of one proper line or more (as above), then a line that is neither empty nor a comment and
-- in which the number of `=` is not one, then any lines: the settings are those that the entries in
-- front of that line give; what stands behind it is not read, and nothing is reported.
pub load_config_stops :
    (item : Item) (items : List Item) (part : List ℕ) (parts lines : List (List ℕ)) (g : Config)
    → AllItems (item ∷ items)
    → AllFree b'\n' (join b'=' part parts ∷ lines)
    → AllFree b'=' (part ∷ parts)
    → IsText (join b'=' part parts)
    → IsEntry (join b'=' part parts)
    → length parts ≢ 1
    → load_config
        (some (join b'\n' (item_line item) (map item_line items ++ join b'=' part parts ∷ lines)))
        g
      ≡ apply_items (item ∷ items) g
load_config_stops item items part parts lines g h whole free text is_entry bad =
    let rest = join b'=' part parts ∷ lines in
    load_config-load_lines (item_line item) (map item_line items ++ rest) g (
      AllFree-append b'\n' (map item_line (item ∷ items)) rest (items-AllFree (item ∷ items) h)
        whole)
    ∙ load_lines-items (item ∷ items) rest g h
        (λ g'. load_lines_stop part parts lines g' free text is_entry bad)
