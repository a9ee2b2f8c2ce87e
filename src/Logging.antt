-- ===== src/Logging.antt =====
-- asyncLogging.h and asyncLogging.cpp: the class `AsyncLogging`, whose lines a thread of its own
-- writes. `_accumulateBytes` is the bit pattern of an `int`, since `+=` of a size wraps around. That
-- a file can be opened and written is taken for granted, and the count of files for an `int`.
pub mod Account
pub mod Conserved
pub mod Stopping
pub mod Late
pub mod Rolls
use yeyj_tcp_server.Base.{
  ℕ, zero, suc, ◌+◌, ◌%◌, ◌^◌, ◌≡◌, Bool, true, false, not, ◌&&◌, ◌||◌, List, [], ◌∷◌, ◌++◌, same,
  ltb, leb, ◌==◌, if◌then◌else◌, length, int_max, Run, ok, fault, data_race, out_of_range, ◌>>=◌,
}
use yeyj_tcp_server.Text.{decimal}

-- A line of the log, or another string, as its bytes.
abbrev pub Line : Type 0
Line = List ℕ

pub data Rolling : Type 0 where
  rolling_none rolling_size rolling_daily rolling_size_daily : Rolling

pub record AsyncLogging : Type 0 where
  pub logfilename : Line
  pub flush_interval : ℕ
  pub high_water_mask : ℕ
  pub rolling_rule : Rolling
  pub max_size_bytes : ℕ
  pub accumulate_bytes : ℕ
  pub current_date : Line
  pub running : Bool
  pub current_buffer : List Line
  pub next_buffer : List Line
  pub suffix : ℕ

-- The constructor leaves `_rollingRule` and `_maxSizeBytes` as they are in memory: `rule`, `bytes`.
unfoldable pub new_logging : Line → ℕ → ℕ → Line → Rolling → ℕ → AsyncLogging
new_logging name interval mask today rule bytes = record {
  logfilename = name;
  flush_interval = interval;
  high_water_mask = mask;
  rolling_rule = rule;
  max_size_bytes = bytes;
  accumulate_bytes = 0;
  current_date = today;
  running = false;
  current_buffer = [];
  next_buffer = [];
  suffix = 0;
}

unfoldable pub set_name : AsyncLogging → Line → AsyncLogging
set_name l name = record l { logfilename = name }

unfoldable pub set_flush_interval : AsyncLogging → ℕ → AsyncLogging
set_flush_interval l second = record l { flush_interval = second }

unfoldable pub set_high_water_mask : AsyncLogging → ℕ → AsyncLogging
set_high_water_mask l mask = record l { high_water_mask = mask }

unfoldable pub set_rolling : AsyncLogging → Rolling → AsyncLogging
set_rolling l rule = record l { rolling_rule = rule }

unfoldable pub set_log_file_max_size : AsyncLogging → ℕ → AsyncLogging
set_log_file_max_size l bytes = record l { max_size_bytes = bytes }

-- `_accumulateBytes > _maxSizeBytes`, on `int`.
unfoldable pub over_size : AsyncLogging → Bool
over_size l = leb l.accumulate_bytes int_max && ltb l.max_size_bytes l.accumulate_bytes

-- `append` behind its test of `_running`, with the lock held, and whether it notifies the thread.
unfoldable pub push_line : AsyncLogging → Line → AsyncLogging × Bool
unfolding over_size
push_line l line =
    let l' = record l {
      current_buffer = l.current_buffer ++ line ∷ [];
      accumulate_bytes = (l.accumulate_bytes + length line) % 2 ^ 32;
    } in
    (l', leb l.high_water_mask (length l'.current_buffer) || over_size l')

-- `append` with nothing in between.
unfoldable pub append : AsyncLogging → Line → AsyncLogging × Bool
append l line = if l.running then push_line l line else (l, false)

-- `data.back() != '\n'`, on a string that is not empty.
unfoldable pub ends_line : Line → Bool
ends_line [] = false
ends_line (c ∷ []) = c == b'\n'
ends_line (c ∷ d ∷ cs) = ends_line (d ∷ cs)

abbrev pub newline_ended : Line → Line
newline_ended line = if ends_line line then line else line ++ b'\n' ∷ []

-- `LogFile::writeLine`: the bytes written. `back()` of an empty string is undefined.
unfoldable pub write_line : Line → Run Line
write_line [] = fault out_of_range
write_line (c ∷ cs) = ok (newline_ended (c ∷ cs))

-- `for(int i = 0; i < _nextBuffer.size(); ++i) logfile.writeLine(_nextBuffer[i]);`.
unfoldable pub write_lines : List Line → Run Line
write_lines [] = ok []
write_lines (line ∷ lines) = do text ← write_line line; rest ← write_lines lines; ok (text ++ rest)

pub record LogFile : Type 0 where
  pub name : Line
  pub contents : Line

-- `LogFile::write`.
unfoldable pub write_file : LogFile → Line → LogFile
write_file f text = record f { contents = f.contents ++ text }

-- `getNextLogFileName()`, with the static `suffix`.
unfoldable pub next_log_file_name : AsyncLogging → Line × AsyncLogging
next_log_file_name l =
    (l.logfilename ++ b'_' ∷ decimal l.suffix, record l { suffix = l.suffix + 1 })

-- What the end of a round of the thread does about the file.
pub data Roll : Type 0 where
  keep reopen reset_reopen : Roll

unfoldable pub choose_roll : Rolling → Bool → Bool → Roll
choose_roll rolling_none big new_day = keep
choose_roll rolling_size big new_day = if big then reset_reopen else keep
choose_roll rolling_daily big new_day = if new_day then reopen else keep
choose_roll rolling_size_daily big new_day = if big || new_day then reset_reopen else keep

-- Where the thread stands: before the test of `while`, before it takes the lock, in the wait on the
-- condition, behind the swap, behind the writing, before the reset of `_accumulateBytes`, before the
-- opening of the next file, behind the loop, at the end.
pub data Phase : Type 0 where
  testing locking waiting batch rolling resetting opening flushing finished : Phase

-- The logger, its thread, the open file and those before it (the last first), the lines whose
-- `append` has passed its test of `_running`, and all lines that have been pushed.
pub record System : Type 0 where
  pub logger : AsyncLogging
  pub phase : Phase
  pub logfile : LogFile
  pub older : List LogFile
  pub pending : List Line
  pub accepted : List Line

unfoldable pub swap_buffers : AsyncLogging → AsyncLogging
swap_buffers l = record l { current_buffer = l.next_buffer; next_buffer = l.current_buffer }

-- `logfile = getNextLogFileName()`: the result of `operator=`, which returns none, is not used.
unfoldable pub open_next : System → System
unfolding next_log_file_name
open_next s =
    let (name, l) = next_log_file_name s.logger in
    record s {
      logger = l;
      older = s.logfile ∷ s.older;
      logfile = record { name = name; contents = [] };
    }

-- `start()`, and the thread up to its loop.
unfoldable pub start : AsyncLogging → System
unfolding next_log_file_name
start l =
    let (name, l') = next_log_file_name (record l { running = true }) in
    record {
      logger = l';
      phase = testing;
      logfile = record { name = name; contents = [] };
      older = [];
      pending = [];
      accepted = [];
    }

-- One round of `threadFunction` in steps that no other thread can get in between. `today` is what
-- `getDateAsString()` gives; `waiting` ends by a notification, the time-out, or for no reason.
unfoldable pub thread_step_in : Phase → Line → System → Run System
unfolding over_size
thread_step_in testing today s =
    ok (record s { phase = if s.logger.running then locking else flushing })
thread_step_in locking today s = ok (
    if s.logger.running && ltb (length s.logger.current_buffer) s.logger.high_water_mask
    then record s { phase = waiting }
    else record s { phase = batch; logger = swap_buffers s.logger })
thread_step_in waiting today s = ok (record s { phase = batch; logger = swap_buffers s.logger })
thread_step_in batch today s =
    let write = (do
      text ← write_lines s.logger.next_buffer
      ok (record s {
        phase = rolling;
        logfile = write_file s.logfile text;
        logger = record (s.logger) { next_buffer = [] };
      })) in
    if length s.logger.next_buffer == 0 then ok (record s { phase = testing }) else write
thread_step_in rolling today s = ok (record s {
  phase =
      elim (choose_roll s.logger.rolling_rule (over_size s.logger)
        (not (same today s.logger.current_date))) [
          | keep ↦ testing
          | reopen ↦ opening
          | reset_reopen ↦ resetting
        ];
})
thread_step_in resetting today s =
    ok (record s { phase = opening; logger = record (s.logger) { accumulate_bytes = 0 } })
thread_step_in opening today s = ok (record (open_next s) { phase = testing })
thread_step_in flushing today s = do
  text ← write_lines s.logger.current_buffer
  ok (record s { phase = finished; logfile = write_file s.logfile text })
thread_step_in finished today s = ok s

abbrev pub thread_step : Line → System → Run System
thread_step today s = thread_step_in s.phase today s

unfoldable pub thread_run : ℕ → Line → System → Run System
thread_run zero today s = ok s
thread_run (suc n) today s = do s' ← thread_step today s; thread_run n today s'

-- Behind its loop the thread reads `_currentBuffer` without the lock.
unfoldable pub reads_unlocked : Phase → Bool
reads_unlocked flushing = true
reads_unlocked _ = false

abbrev pub pushed : List Line → Line → List Line → System → System
pushed before line after s = record s {
  pending = before ++ after;
  logger = (push_line s.logger line).0;
  accepted = s.accepted ++ line ∷ [];
}

-- `append` behind its test, with the lock held, for the caller between `before` and `after`. What a
-- push does to a buffer that is being read is undefined.
unfoldable pub push_step : List Line → Line → List Line → System → Run System
unfolding reads_unlocked
push_step before line after s =
    if reads_unlocked s.phase then fault data_race else ok (pushed before line after s)

-- A step of the thread, of a caller of `append` (which tests `_running` before it takes the lock),
-- or of the caller of `stop()`. A step that ends in a fault leads to no system.
pub data Step : System → System → Type 0 where
  threads : {s s' : System} (today : Line) → thread_step today s ≡ ok s' → Step s s'
  enters :
      {s : System} (line : Line)
      → s.logger.running ≡ true
      → Step s (record s { pending = line ∷ s.pending })
  pushes :
      {s s' : System} (before : List Line) (line : Line) (after : List Line)
      → s.pending ≡ before ++ line ∷ after
      → push_step before line after s ≡ ok s'
      → Step s s'
  stops : {s : System} → Step s (record s { logger = record (s.logger) { running = false } })

-- The systems that may come about after `first`.
pub data Reach (first : System) : System → Type 0 where
  begins : Reach first first
  goes_on : {s s' : System} → Reach first s → Step s s' → Reach first s'
