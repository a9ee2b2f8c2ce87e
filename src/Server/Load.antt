-- ===== src/Server/Load.antt =====
-- `loadConfig`: the reading of the configuration file, whose bytes are a parameter.
use yeyj_tcp_server.Base.{
  ℕ, zero, suc, ◌+◌, Option, none, some, List, [], ◌∷◌, ◌==◌, if◌then◌else◌, length, Run, ok, fault,
  endless, ◌>>=◌,
}
use yeyj_tcp_server.Server.Config.{Config, ConfigKey, first_key, all_keys, apply_entry}
use yeyj_tcp_server.Text.{split, strsep, trim}

-- An entry whose key is not known changes nothing.
unfoldable pub apply_key : Option ConfigKey → List ℕ → Config → Run Config
apply_key none value g = ok g
apply_key (some k) value g = apply_entry k value g

-- A line behind `split`; `none` is the `break`.
unfoldable pub apply_parts : List (List ℕ) → Config → Run (Option Config)
unfolding apply_key
apply_parts (key ∷ value ∷ []) g = do
  g' ← apply_key (first_key all_keys (trim key)) (trim value) g
  ok (some g')
apply_parts [] g = ok none
apply_parts (part ∷ []) g = ok none
apply_parts (key ∷ value ∷ more ∷ parts) g = ok none

-- The body of the loop on one line.
unfoldable pub load_line : List ℕ → Config → Run (Option Config)
load_line [] g = ok (some g)
load_line (c ∷ cs) g =
    let entry = (do parts ← split (c ∷ cs) (b'=' ∷ []); apply_parts parts g) in
    if c == b'#' then ok (some g) else entry

-- `while(true)`, with the rounds that it may make. `getline` takes a line off, and reaches the end
-- of the file where no newline is left: then `none` is what remains.
unfoldable pub load_loop : ℕ → Option (List ℕ) → Config → Run Config
load_loop rounds none g = ok g
load_loop zero (some text) g = fault endless
load_loop (suc rounds) (some text) g = do
  r ← load_line (strsep (b'\n' ∷ []) text).0 g
  elim r [ none ↦ ok g | some g' ↦ load_loop rounds (strsep (b'\n' ∷ []) text).1 g' ]

-- Each round but the last takes a newline, so `length text + 1` rounds are enough. `none` is a file
-- that could not be opened.
unfoldable pub load_config : Option (List ℕ) → Config → Run Config
load_config none g = ok g
load_config (some text) g = load_loop (length text + 1) (some text) g
