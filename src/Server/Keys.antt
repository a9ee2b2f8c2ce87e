-- ===== src/Server/Keys.antt =====
-- The keys of the configuration: what their names hold, and that a name gives its key.
use yeyj_tcp_server.Base.{
  ℕ, ◌≡◌, refl, arith, Bool, true, false, not, ◌&&◌, some, List, [], ◌∷◌, ◌==◌, same,
}
use yeyj_tcp_server.Server.Config.{
  ConfigKey, key_name, first_key, all_keys, key_listening_port, key_max_tcp, key_max_tcp_per_worker,
  key_max_tcp_eviction_rule, key_inactive_tcp_timeout, key_inactive_tcp_eviction_rule,
  key_max_vm_memory, key_max_rss, key_eviction_pool_size, key_load_balance, key_read_init,
  key_write_init, key_read_max, key_write_max, key_log_prefix, key_log_rolling, key_log_max_size,
  key_log_interval, key_log_watermask,
}
use yeyj_tcp_server.Text.Decimal.{IsText}
use yeyj_tcp_server.Text.Split.{IsFree}
use yeyj_tcp_server.Text.Trim.{StartsSolid, EndsSolid}
use yeyj_tcp_server.Text.{is_space}

-- The test of `load_line` for a line that is read.
abbrev pub IsEntry : List ℕ → Type 0
IsEntry [] = ⊥
IsEntry (c ∷ cs) = (c == b'#') ≡ false

-- What the parts of an entry may hold.
pub record IsWord (w : List ℕ) : Type 0 where
  pub no_equals : IsFree b'=' w
  pub no_newline : IsFree b'\n' w
  pub text : IsText w
  pub starts : StartsSolid w
  pub ends : EndsSolid w

-- The same as a test.
good_byte : ℕ → Bool
good_byte c = not (c == 0) && not (c == b'=') && not (c == b'\n')

all_good : List ℕ → Bool
unfolding good_byte
all_good [] = true
all_good (c ∷ cs) = good_byte c && all_good cs

all_good_sound : (w : List ℕ) → all_good w ≡ true → IsFree b'=' w × IsFree b'\n' w × IsText w
unfolding all_good
all_good_sound [] h = (tt, tt, tt)
all_good_sound (c ∷ cs) h =
    let rest : all_good cs ≡ true = ground arith in
    let (a, b, d) = all_good_sound cs rest in
    ((ground arith, a), (ground arith, b), (ground arith, d))

ends_solid : List ℕ → Bool
ends_solid [] = false
ends_solid (c ∷ []) = not (is_space c)
ends_solid (c ∷ d ∷ cs) = ends_solid (d ∷ cs)

ends_solid_sound : (w : List ℕ) → ends_solid w ≡ true → EndsSolid w
unfolding ends_solid
ends_solid_sound [] h = absurd (cc h)
ends_solid_sound (c ∷ []) h = ground arith
ends_solid_sound (c ∷ d ∷ cs) h = ends_solid_sound (d ∷ cs) h

is_name : List ℕ → Bool
unfolding all_good ends_solid
is_name [] = false
is_name (c ∷ cs) = not (is_space c) && not (c == b'#') && all_good (c ∷ cs) && ends_solid (c ∷ cs)

is_name_sound : (w : List ℕ) → is_name w ≡ true → IsWord w × IsEntry w
unfolding is_name
is_name_sound [] h = absurd (cc h)
is_name_sound (c ∷ cs) h =
    let good : all_good (c ∷ cs) ≡ true = ground arith in
    let solid : ends_solid (c ∷ cs) ≡ true = ground arith in
    let (a, b, d) = all_good_sound (c ∷ cs) good in
    (
      record {
        no_equals = a;
        no_newline = b;
        text = d;
        starts = ground arith;
        ends = ends_solid_sound (c ∷ cs) solid;
      },
      ground arith,
    )

pub key_name-first_key : (k : ConfigKey) → first_key all_keys (key_name k) ≡ some k
unfolding first_key same
key_name-first_key key_listening_port = refl
key_name-first_key key_max_tcp = refl
key_name-first_key key_max_tcp_per_worker = refl
key_name-first_key key_max_tcp_eviction_rule = refl
key_name-first_key key_inactive_tcp_timeout = refl
key_name-first_key key_inactive_tcp_eviction_rule = refl
key_name-first_key key_max_vm_memory = refl
key_name-first_key key_max_rss = refl
key_name-first_key key_eviction_pool_size = refl
key_name-first_key key_load_balance = refl
key_name-first_key key_read_init = refl
key_name-first_key key_write_init = refl
key_name-first_key key_read_max = refl
key_name-first_key key_write_max = refl
key_name-first_key key_log_prefix = refl
key_name-first_key key_log_rolling = refl
key_name-first_key key_log_max_size = refl
key_name-first_key key_log_interval = refl
key_name-first_key key_log_watermask = refl

key_name-is_name : (k : ConfigKey) → is_name (key_name k) ≡ true
unfolding is_name key_name is_space
key_name-is_name key_listening_port = refl
key_name-is_name key_max_tcp = refl
key_name-is_name key_max_tcp_per_worker = refl
key_name-is_name key_max_tcp_eviction_rule = refl
key_name-is_name key_inactive_tcp_timeout = refl
key_name-is_name key_inactive_tcp_eviction_rule = refl
key_name-is_name key_max_vm_memory = refl
key_name-is_name key_max_rss = refl
key_name-is_name key_eviction_pool_size = refl
key_name-is_name key_load_balance = refl
key_name-is_name key_read_init = refl
key_name-is_name key_write_init = refl
key_name-is_name key_read_max = refl
key_name-is_name key_write_max = refl
key_name-is_name key_log_prefix = refl
key_name-is_name key_log_rolling = refl
key_name-is_name key_log_max_size = refl
key_name-is_name key_log_interval = refl
key_name-is_name key_log_watermask = refl

-- The name of a key is a word, and no comment.
pub key_name-IsWord : (k : ConfigKey) → IsWord (key_name k) × IsEntry (key_name k)
key_name-IsWord k = is_name_sound (key_name k) (key_name-is_name k)
