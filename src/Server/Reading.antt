-- ===== src/Server/Reading.antt =====
-- `loadConfig` against the entries that a configuration file lists.
use yeyj_tcp_server.Base.{
  ℕ, zero, suc, ◌+◌, ◌<◌, ◌≡◌, refl, ap, ◌∙◌, arith, Option, none, some, List, [], ◌∷◌, length, Run,
  ok, fault, ◌>>=◌,
}
use yeyj_tcp_server.Server.Config.{Config}
use yeyj_tcp_server.Server.Load.{load_line, load_loop, load_config, apply_parts}
use yeyj_tcp_server.Text.Split.{AllFree, join, strsep_last, strsep_more, length-le-join}
use yeyj_tcp_server.Text.{split}
use yeyj_tcp_server.Server.Keys.{IsEntry}

-- The loop over the lines of a file, given as a list.
abbrev pub load_lines : List (List ℕ) → Config → Run Config
load_lines [] g = ok g
load_lines (line ∷ lines) g =
    load_line line g >>= λ r. elim r [ none ↦ ok g | some g' ↦ load_lines lines g' ]

no_rest : (rounds : ℕ) (g : Config) → load_loop rounds none g ≡ ok g
unfolding load_loop
no_rest zero g = refl
no_rest (suc rounds) g = refl

-- A round of the loop, on what `getline` has taken off.
abbrev round : ℕ → Config → List ℕ × Option (List ℕ) → Run Config
round rounds g p =
    load_line p.0 g >>= λ r. elim r [ none ↦ ok g | some g' ↦ load_loop rounds p.1 g' ]

load_loop-load_lines :
    (rounds : ℕ) (line : List ℕ) (lines : List (List ℕ)) (g : Config)
    → AllFree b'\n' (line ∷ lines)
    → length lines < rounds
    → load_loop rounds (some (join b'\n' line lines)) g ≡ load_lines (line ∷ lines) g
unfolding load_loop
load_loop-load_lines zero line lines g free few = absurd (omega arith)
load_loop-load_lines (suc rounds) line [] g free few =
    ap (round rounds g) (strsep_last b'\n' line free.0) ∙ last (load_line line g)
  where
    last :
        (r : Run (Option Config))
        → (r >>= λ o. elim o [ none ↦ ok g | some g' ↦ load_loop rounds none g' ])
          ≡ (r >>= λ o. elim o [ none ↦ ok g | some g' ↦ ok g' ])
    last (fault why) = refl
    last (ok none) = refl
    last (ok (some g')) = no_rest rounds g'
load_loop-load_lines (suc rounds) line (next ∷ lines) g free few =
    ap (round rounds g) (strsep_more b'\n' line (join b'\n' next lines) free.0)
    ∙ (more (load_line line g)
        (λ g'. load_loop-load_lines rounds next lines g' free.1 (omega arith)))
  where
    more :
        (r : Run (Option Config))
        → ((g' : Config)
            → load_loop rounds (some (join b'\n' next lines)) g' ≡ load_lines (next ∷ lines) g')
        → (r >>= λ o. elim o [
          | none ↦ ok g
          | some g' ↦ load_loop rounds (some (join b'\n' next lines)) g'
        ])
          ≡ (r >>= λ o. elim o [ none ↦ ok g | some g' ↦ load_lines (next ∷ lines) g' ])
    more (fault why) later = refl
    more (ok none) later = refl
    more (ok (some g')) later = later g'

-- A file is read line by line.
pub load_config-load_lines :
    (line : List ℕ) (lines : List (List ℕ)) (g : Config)
    → AllFree b'\n' (line ∷ lines)
    → load_config (some (join b'\n' line lines)) g ≡ load_lines (line ∷ lines) g
unfolding load_config
load_config-load_lines line lines g free =
    load_loop-load_lines (length (join b'\n' line lines) + 1) line lines g free
      (omega (arith, length-le-join b'\n' line lines))

pub load_line_entry :
    (line : List ℕ) (g : Config)
    → IsEntry line
    → load_line line g ≡ (split line (b'=' ∷ []) >>= λ parts. apply_parts parts g)
unfolding load_line
load_line_entry [] g h = absurd h
load_line_entry (c ∷ cs) g h = rw h
