-- ===== src/Tests/Logs.antt =====
-- Runs of the log, and its theorems at a system with one accepted line.
use yeyj_tcp_server.Base.{same, ◌≡◌, ◌≢◌, refl, arith, false, [], ◌∷◌, Run, ok, ◌>>=◌}
use yeyj_tcp_server.Logging.Rolls.{
  AreNumbered, AreDistinct, Reach-AreNumbered, daily_logger, daily_reopens,
}
use yeyj_tcp_server.Logging.Account.{lines_text}
use yeyj_tcp_server.Logging.Stopping.{EndsSoon, stop-EndsSoon}
use yeyj_tcp_server.Logging.{
  push_step, reads_unlocked, Line, AsyncLogging, System, testing, batch, locking, threads, finished,
  rolling_daily, rolling_size, new_logging, set_name, set_flush_interval, set_high_water_mask,
  set_rolling, set_log_file_max_size, over_size, push_line, append, ends_line, write_line,
  write_lines, write_file, next_log_file_name, choose_roll, swap_buffers, open_next, start,
  thread_step_in, thread_run, enters, pushes, stops, Reach, begins, goes_on,
}
use yeyj_tcp_server.Text.{decimal, digits_loop}

-- a logger with the prefix "a", in its state before `start`
abbrev pub fresh_logger : AsyncLogging
fresh_logger = record {
  logfilename = b'a' ∷ [];
  flush_interval = 1;
  high_water_mask = 1;
  rolling_rule = rolling_daily;
  max_size_bytes = 100;
  accumulate_bytes = 0;
  current_date = 1 ∷ [];
  running = false;
  current_buffer = [];
  next_buffer = [];
  suffix = 0;
}

settings_run :
    set_log_file_max_size
      (set_rolling
        (set_high_water_mask
          (set_flush_interval
            (set_name (new_logging [] 5 100 (1 ∷ []) rolling_size 0) (b'a' ∷ []))
            1)
          1)
        rolling_daily)
      100
    ≡ fresh_logger
unfolding new_logging set_name set_flush_interval set_high_water_mask set_rolling
    set_log_file_max_size
settings_run = refl

abbrev hello : Line
hello = b'h' ∷ b'i' ∷ []

abbrev asked : System
asked = record (start fresh_logger) { pending = hello ∷ [] }

abbrev told : System
told = record asked {
  pending = [];
  logger = (push_line asked.logger hello).0;
  accepted = hello ∷ [];
}

abbrev stopped : System
stopped = record told { logger = record (told.logger) { running = false } }

told-Reach : Reach (start fresh_logger) told
unfolding start next_log_file_name push_step reads_unlocked
told-Reach = goes_on (goes_on begins (enters hello refl)) (pushes [] hello [] refl refl)

Reach-AreNumbered_example :
    AreNumbered (b'a' ∷ []) (told.logfile ∷ told.older) × AreDistinct (told.logfile ∷ told.older)
Reach-AreNumbered_example = Reach-AreNumbered fresh_logger told refl told-Reach

is_live : stopped.phase ≢ finished
unfolding start next_log_file_name
is_live h = cc

stop-EndsSoon_example : EndsSoon 7 (1 ∷ []) stopped
unfolding start next_log_file_name push_line
stop-EndsSoon_example =
    stop-EndsSoon fresh_logger (1 ∷ []) stopped refl refl (goes_on told-Reach stops) is_live
      (record { off = refl; filled_current = (omega arith, tt); filled_next = tt })

-- the batch of a logger that was made on the first day
abbrev first_day : AsyncLogging
first_day = daily_logger (b'a' ∷ []) 1 1 (1 ∷ []) rolling_size 0

abbrev first_line : System
first_line = record (start first_day) {
  pending = [];
  logger = (push_line (start first_day).logger hello).0;
  accepted = hello ∷ [];
}

abbrev first_locking : System
first_locking = record first_line { phase = locking }

abbrev first_batch : System
first_batch = record first_line { phase = batch; logger = swap_buffers first_line.logger }

first_batch-Reach : Reach (start first_day) first_batch
unfolding start next_log_file_name new_logging set_rolling push_line swap_buffers thread_step_in
    push_step reads_unlocked
first_batch-Reach =
    goes_on {s = first_locking}
      (goes_on {s = first_line}
        (goes_on (goes_on begins (enters hello refl)) (pushes [] hello [] refl refl))
        (threads (2 ∷ []) refl))
      (threads (2 ∷ []) refl)

daily_reopens_example :
    (s' : System) × (thread_run 3 (2 ∷ []) first_batch ≡ ok s')
    × (s'.phase ≡ testing)
    × (s'.older
        ≡ write_file first_batch.logfile (lines_text first_batch.logger.next_buffer)
          ∷ first_batch.older)
    × (s'.logfile.contents ≡ [])
unfolding same start next_log_file_name new_logging set_rolling push_line swap_buffers
daily_reopens_example =
    daily_reopens (b'a' ∷ []) 1 1 (1 ∷ []) rolling_size 0 (2 ∷ []) first_batch first_batch-Reach
      refl refl (omega arith) (omega arith, tt)

-- the thread has ended while a caller of `append` was between its test and the lock
abbrev too_late : System
too_late = record asked { phase = finished }

-- a whole run: one line, then `stop()`
abbrev whole_run : Run Line
whole_run = do s ← thread_run 5 (1 ∷ []) stopped; ok s.logfile.contents

whole_run_writes : whole_run ≡ ok (b'h' ∷ b'i' ∷ b'\n' ∷ [])
unfolding thread_run thread_step_in start next_log_file_name decimal digits_loop push_line append
    over_size same ends_line write_line write_lines write_file choose_roll swap_buffers open_next
whole_run_writes = refl

append_runs : (append stopped.logger hello).1 ≡ false
unfolding append start next_log_file_name push_line
append_runs = refl
