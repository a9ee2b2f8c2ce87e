-- ===== src/Server/Config.antt =====
-- The settings of `TcpServer`, and what one entry of the configuration does to them.
use yeyj_tcp_server.Base.{
  Option, none, some, List, [], ◌∷◌, codes, same, if◌then◌else◌, ℕ, ℤ, Run, ok, ◌>>=◌,
}
use yeyj_tcp_server.Logging.{Rolling, rolling_none, rolling_size, rolling_daily, rolling_size_daily}
use yeyj_tcp_server.Server.Integers.{atoi, convert_to_kb, times_int}

pub data MaxTcpEviction : Type 0 where
  max_tcp_none max_tcp_random max_tcp_inactive : MaxTcpEviction

pub data InactiveEviction : Type 0 where
  inactive_none inactive_close : InactiveEviction

-- The four functions that `_loadBalance` may hold.
pub data LoadBalance : Type 0 where
  round_robin random_worker min_connection ip_hash : LoadBalance

-- `none` is a member that has not been set: an `int` without a value, or an empty function.
pub record Config : Type 0 where
  pub listening_port : Option ℤ
  pub max_tcp : Option ℤ
  pub max_tcp_per_worker : Option ℤ
  pub max_tcp_eviction_rule : Option MaxTcpEviction
  pub inactive_tcp_timeout : Option ℤ
  pub inactive_tcp_eviction_rule : Option InactiveEviction
  pub max_vm_kb : Option ℤ
  pub max_rss_kb : Option ℤ
  pub eviction_pool_size : Option ℤ
  pub load_balance : Option LoadBalance
  pub read_buffer_init_size : Option ℤ
  pub write_buffer_init_size : Option ℤ
  pub read_buffer_max_size : Option ℤ
  pub write_buffer_max_size : Option ℤ
  pub log_file_name_prefix : List ℕ
  pub log_file_rolling : Option Rolling
  pub log_file_max_size : Option ℤ
  pub log_flush_interval_second : Option ℤ
  pub log_high_watermask : Option ℤ

-- The members before `loadConfig`.
abbrev pub unset : Config
unset = record {
  listening_port = none;
  max_tcp = none;
  max_tcp_per_worker = none;
  max_tcp_eviction_rule = none;
  inactive_tcp_timeout = none;
  inactive_tcp_eviction_rule = none;
  max_vm_kb = none;
  max_rss_kb = none;
  eviction_pool_size = none;
  load_balance = none;
  read_buffer_init_size = none;
  write_buffer_init_size = none;
  read_buffer_max_size = none;
  write_buffer_max_size = none;
  log_file_name_prefix = [];
  log_file_rolling = none;
  log_file_max_size = none;
  log_flush_interval_second = none;
  log_high_watermask = none;
}

pub data ConfigKey : Type 0 where
  key_listening_port key_max_tcp key_max_tcp_per_worker key_max_tcp_eviction_rule : ConfigKey
  key_inactive_tcp_timeout key_inactive_tcp_eviction_rule key_max_vm_memory key_max_rss : ConfigKey
  key_eviction_pool_size key_load_balance : ConfigKey
  key_read_init key_write_init key_read_max key_write_max : ConfigKey
  key_log_prefix key_log_rolling key_log_max_size key_log_interval key_log_watermask : ConfigKey

unfoldable pub key_name : ConfigKey → List ℕ
key_name key_listening_port = codes "listening-port"
key_name key_max_tcp = codes "max-tcp"
key_name key_max_tcp_per_worker = codes "max-tcp-per-worker"
key_name key_max_tcp_eviction_rule = codes "max-tcp-eviction-rule"
key_name key_inactive_tcp_timeout = codes "inactive-tcp-timeout"
key_name key_inactive_tcp_eviction_rule = codes "inactive-tcp-eviction-rule"
key_name key_max_vm_memory = codes "max-vm-memory"
key_name key_max_rss = codes "max-rss"
key_name key_eviction_pool_size = codes "eviction-pool-size"
key_name key_load_balance = codes "load-balance"
key_name key_read_init = codes "tcp-read-buffer-init-size-bytes"
key_name key_write_init = codes "tcp-write-buffer-init-size-bytes"
key_name key_read_max = codes "tcp-read-buffer-max-size-bytes"
key_name key_write_max = codes "tcp-write-buffer-max-size-bytes"
key_name key_log_prefix = codes "log-file-name-prefix"
key_name key_log_rolling = codes "log-file-rolling"
key_name key_log_max_size = codes "log-file-max-size"
key_name key_log_interval = codes "log-flush-interval-second"
key_name key_log_watermask = codes "log-high-watermask"

-- The tests of `loadConfig` on the key, in their order.
abbrev pub all_keys : List ConfigKey
all_keys =
    key_listening_port ∷ key_max_tcp ∷ key_max_tcp_per_worker ∷ key_max_tcp_eviction_rule
    ∷ key_inactive_tcp_timeout ∷ key_inactive_tcp_eviction_rule ∷ key_max_vm_memory ∷ key_max_rss
    ∷ key_eviction_pool_size ∷ key_load_balance ∷ key_read_init ∷ key_write_init ∷ key_read_max
    ∷ key_write_max ∷ key_log_prefix ∷ key_log_rolling ∷ key_log_max_size ∷ key_log_interval
    ∷ key_log_watermask ∷ []

unfoldable pub first_key : List ConfigKey → List ℕ → Option ConfigKey
unfolding key_name
first_key [] key = none
first_key (k ∷ ks) key = if same key (key_name k) then some k else first_key ks key

-- `1024 * convertToKB(value)`.
unfoldable pub bytes_of : List ℕ → Run ℤ
bytes_of value = do kb ← convert_to_kb value; times_int 1024 kb

unfoldable pub max_tcp_rule : List ℕ → Option MaxTcpEviction → Option MaxTcpEviction
max_tcp_rule value old =
    if same value (codes "none")
    then some max_tcp_none
    else if same value (codes "random")
    then some max_tcp_random
    else if same value (codes "inactive")
    then some max_tcp_inactive
    else old

unfoldable pub inactive_rule : List ℕ → Option InactiveEviction → Option InactiveEviction
inactive_rule value old =
    if same value (codes "none")
    then some inactive_none
    else if same value (codes "close")
    then some inactive_close
    else old

unfoldable pub balance_rule : List ℕ → Option LoadBalance → Option LoadBalance
balance_rule value old =
    if same value (codes "round-robin")
    then some round_robin
    else if same value (codes "random")
    then some random_worker
    else if same value (codes "min-connection")
    then some min_connection
    else if same value (codes "ip-hash")
    then some ip_hash
    else old

unfoldable pub rolling_rule_of : List ℕ → Option Rolling → Option Rolling
rolling_rule_of value old =
    if same value (codes "none")
    then some rolling_none
    else if same value (codes "size")
    then some rolling_size
    else if same value (codes "daily")
    then some rolling_daily
    else if same value (codes "size & daily")
    then some rolling_size_daily
    else old

-- The branch of `loadConfig` for a key that is known.
unfoldable pub apply_entry : ConfigKey → List ℕ → Config → Run Config
unfolding bytes_of max_tcp_rule inactive_rule balance_rule rolling_rule_of
apply_entry key_listening_port v g = do n ← atoi v; ok (record g { listening_port = some n })
apply_entry key_max_tcp v g = do n ← atoi v; ok (record g { max_tcp = some n })
apply_entry key_max_tcp_per_worker v g = do
  n ← atoi v
  ok (record g { max_tcp_per_worker = some n })
apply_entry key_max_tcp_eviction_rule v g =
    ok (record g { max_tcp_eviction_rule = max_tcp_rule v g.max_tcp_eviction_rule })
apply_entry key_inactive_tcp_timeout v g = do
  n ← atoi v
  ok (record g { inactive_tcp_timeout = some n })
apply_entry key_inactive_tcp_eviction_rule v g =
    ok (record g { inactive_tcp_eviction_rule = inactive_rule v g.inactive_tcp_eviction_rule })
apply_entry key_max_vm_memory v g = do n ← convert_to_kb v; ok (record g { max_vm_kb = some n })
apply_entry key_max_rss v g = do n ← convert_to_kb v; ok (record g { max_rss_kb = some n })
apply_entry key_eviction_pool_size v g = do
  n ← atoi v
  ok (record g { eviction_pool_size = some n })
apply_entry key_load_balance v g = ok (record g { load_balance = balance_rule v g.load_balance })
apply_entry key_read_init v g = do n ← bytes_of v; ok (record g { read_buffer_init_size = some n })
apply_entry key_write_init v g = do
  n ← bytes_of v
  ok (record g { write_buffer_init_size = some n })
apply_entry key_read_max v g = do n ← bytes_of v; ok (record g { read_buffer_max_size = some n })
apply_entry key_write_max v g = do n ← bytes_of v; ok (record g { write_buffer_max_size = some n })
apply_entry key_log_prefix v g = ok (record g { log_file_name_prefix = v })
apply_entry key_log_rolling v g =
    ok (record g { log_file_rolling = rolling_rule_of v g.log_file_rolling })
apply_entry key_log_max_size v g = do n ← bytes_of v; ok (record g { log_file_max_size = some n })
apply_entry key_log_interval v g = do
  n ← atoi v
  ok (record g { log_flush_interval_second = some n })
apply_entry key_log_watermask v g = do n ← atoi v; ok (record g { log_high_watermask = some n })
