-- ===== src/Tests/Configs.antt =====
-- Runs of `loadConfig`, and its theorems on concrete files.
use yeyj_tcp_server.Base.{
  ℕ, ◌≡◌, refl, arith, List, [], ◌∷◌, ◌++◌, codes, Option, some, none, Run, ok, pos, ℤ, ◌>>=◌, same,
}
use yeyj_tcp_server.Buffer.{c_string, is_digit}
use yeyj_tcp_server.Logging.{Rolling, rolling_size_daily}
use yeyj_tcp_server.Server.Config.{
  Config, unset, key_name, first_key, bytes_of, max_tcp_rule, inactive_rule, balance_rule,
  rolling_rule_of, apply_entry, key_max_tcp, MaxTcpEviction, max_tcp_random, LoadBalance, ip_hash,
}
use yeyj_tcp_server.Server.Entries.{
  Item, comment, empty_line, entry, item_line, apply_items, load_config-apply_items,
  load_config_stops,
}
use yeyj_tcp_server.Server.Integers.{
  int_of, times_int, skip_spaces, leading_number, take_sign, atoi, unit_factor, convert_to_kb,
}
use yeyj_tcp_server.Server.Load.{apply_key, apply_parts, load_line, load_loop, load_config}
use mathlib.Core.List.{map}
use yeyj_tcp_server.Text.Split.{join}
use yeyj_tcp_server.Text.{
  is_space, ltrim_loop, ltrim, rtrim_loop, rtrim, trim, is_delim, strsep, split_loop, split,
}

abbrev settings :
    Run Config
    → Run (Option ℤ × Option MaxTcpEviction × Option LoadBalance × Option Rolling × Option ℤ)
settings r = do
  g ← r
  ok (g.max_tcp, g.max_tcp_eviction_rule, g.load_balance, g.log_file_rolling, g.max_rss_kb)

-- the line without a value ends the reading
abbrev file : List ℕ
file =
    codes "# limits"
    ++ b'\n' ∷ codes "max-tcp = 100"
    ++ b'\n' ∷ b'\n' ∷ codes "max-tcp-eviction-rule=random"
    ++ b'\n' ∷ codes "load-balance = ip-hash"
    ++ b'\n' ∷ codes "log-file-rolling = size & daily"
    ++ b'\n' ∷ codes "broken"
    ++ b'\n' ∷ codes "max-rss = 2M"

load_config_runs :
    settings (load_config (some file) unset)
    ≡ ok (some (pos 100), some max_tcp_random, some ip_hash, some rolling_size_daily, none)
unfolding is_digit c_string is_space int_of skip_spaces leading_number take_sign atoi unit_factor
    times_int convert_to_kb ltrim_loop ltrim rtrim_loop rtrim trim is_delim strsep split_loop split
    key_name first_key bytes_of max_tcp_rule inactive_rule balance_rule rolling_rule_of apply_entry
    apply_key apply_parts load_line load_loop load_config same
load_config_runs = refl

abbrev items : List Item
items = entry key_max_tcp (codes "10") ∷ empty_line ∷ []

load_config-apply_items_example :
    load_config (some (join b'\n' (item_line (comment (codes "rss"))) (map item_line items))) unset
    ≡ apply_items (comment (codes "rss") ∷ items) unset
unfolding is_space
load_config-apply_items_example = load_config-apply_items (comment (codes "rss")) items unset (
  (refl, (refl, (refl, tt))),
  (
    record {
      text = (omega arith, (omega arith, tt));
      no_equals = (refl, (refl, tt));
      no_newline = (refl, (refl, tt));
      starts = refl;
      ends = refl;
    },
    (tt, tt),
  ),
)

load_config_stops_example :
    load_config
      (some (
        join b'\n'
          (item_line (comment (codes "rss")))
          (map item_line [] ++ codes "ab" ∷ codes "max-tcp = 10" ∷ [])))
      unset
    ≡ apply_items (comment (codes "rss") ∷ []) unset
load_config_stops_example =
    load_config_stops (comment (codes "rss")) [] (codes "ab") [] (codes "max-tcp = 10" ∷ []) unset
      ((refl, (refl, (refl, tt))), tt)
      (
        (refl, (refl, tt)),
        (
          (
            refl,
            (
              refl,
              (refl, (refl, (refl, (refl, (refl, (refl, (refl, (refl, (refl, (refl, tt)))))))))),
            ),
          ),
          tt,
        ),
      )
      ((refl, (refl, tt)), tt) (omega arith, (omega arith, tt)) refl (omega arith)
