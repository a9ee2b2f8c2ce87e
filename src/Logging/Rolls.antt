-- ===== src/Logging/Rolls.antt =====
-- The files of the log: their names, and when the next one is opened.
use mathlib.Core.Path.{subst}
use yeyj_tcp_server.Base.{
  ◌<◌, ok_inj, fault_stops, same, ℕ, suc, ◌≤◌, ◌≡◌, refl, sym, ap, ◌∙◌, ◌⊎◌, arith, Bool, true,
  false, not, ◌&&◌, List, [], ◌∷◌, ◌++◌, ltb, ◌==◌, if◌then◌else◌, Bool-cases, inl, inr, length, ok,
  Run-cases,
}
use yeyj_tcp_server.Buffer.Peek.{value}
use yeyj_tcp_server.Logging.Account.{push_step-ok, lines_text}
use yeyj_tcp_server.Logging.Conserved.{after_roll}
use yeyj_tcp_server.Logging.Stopping.{AllFilled, write_lines_filled}
use yeyj_tcp_server.Logging.{
  pushed, Line, AsyncLogging, LogFile, System, Phase, testing, locking, waiting, batch, rolling,
  resetting, opening, flushing, finished, write_lines, write_file, swap_buffers, push_line,
  open_next, Rolling, new_logging, set_rolling, rolling_daily, next_log_file_name, start,
  thread_step_in, thread_run, choose_roll, over_size, Step, threads, enters, pushes, stops, Reach,
  begins, goes_on,
}
use yeyj_tcp_server.Text.Decimal.{value-decimal}
use yeyj_tcp_server.Text.{decimal}

-- The name of file `n`.
abbrev pub file_name : Line → ℕ → Line
file_name prefix n = prefix ++ b'_' ∷ decimal n

-- The files are numbered from 0 on, the last one first.
abbrev pub AreNumbered : Line → List LogFile → Type 0
AreNumbered prefix [] = Unit {0}
AreNumbered prefix (f ∷ fs) = (f.name ≡ file_name prefix (length fs)) × AreNumbered prefix fs

-- No two files have the same name.
abbrev pub HasName : Line → List LogFile → Type 0
HasName name [] = ⊥
HasName name (f ∷ fs) = (name ≡ f.name) ⊎ HasName name fs

abbrev pub AreDistinct : List LogFile → Type 0
AreDistinct [] = Unit {0}
AreDistinct (f ∷ fs) = (HasName f.name fs → ⊥) × AreDistinct fs

append-cancel : (p a b : Line) → p ++ a ≡ p ++ b → a ≡ b
append-cancel [] a b h = h
append-cancel (c ∷ p) a b h = append-cancel p a b (cc)

file_name_inj : (prefix : Line) (m n : ℕ) → file_name prefix m ≡ file_name prefix n → m ≡ n
file_name_inj prefix m n h =
    let e : b'_' ∷ decimal m ≡ b'_' ∷ decimal n = append-cancel prefix _ _ h in
    let e' : decimal m ≡ decimal n = cc in sym (value-decimal m) ∙ ap (value 0) e' ∙ value-decimal n

numbered_below :
    (prefix : Line) (n : ℕ) (fs : List LogFile)
    → AreNumbered prefix fs
    → length fs ≤ n
    → HasName (file_name prefix n) fs
    → ⊥
numbered_below prefix n [] h few there = there
numbered_below prefix n (f ∷ fs) h few (inl e) =
    let same_number = file_name_inj prefix n (length fs) (e ∙ h.0) in omega arith
numbered_below prefix n (f ∷ fs) h few (inr there) =
    numbered_below prefix n fs h.1 (omega arith) there

AreNumbered-AreDistinct :
    (prefix : Line) (fs : List LogFile) → AreNumbered prefix fs → AreDistinct fs
AreNumbered-AreDistinct prefix [] h = tt
AreNumbered-AreDistinct prefix (f ∷ fs) h = (
  λ there.
      numbered_below prefix (length fs) fs h.1 (omega arith) (subst (λ n. HasName n fs) h.0 there),
  AreNumbered-AreDistinct prefix fs h.1,
)

-- The files of a system are numbered, and `suffix` is the number of the next one; date and
-- rule are those that the logger has been started with.
abbrev pub IsNumbered : Line → Line → Rolling → System → Type 0
IsNumbered prefix day rule s =
    (s.logger.logfilename ≡ prefix)
    × AreNumbered prefix (s.logfile ∷ s.older)
    × (s.logger.suffix ≡ suc (length s.older))
    × (s.logger.current_date ≡ day)
    × (s.logger.rolling_rule ≡ rule)

module _ (prefix day : Line) (rule : Rolling) where
  settles :
      {x s' : System} → IsNumbered prefix day rule x → ok x ≡ ok s' → IsNumbered prefix day rule s'
  settles h e = subst (IsNumbered prefix day rule) (ok_inj e) h

  either_way :
      (b : Bool) (x y : System) {s' : System}
      → IsNumbered prefix day rule x
      → IsNumbered prefix day rule y
      → ok (if b then x else y) ≡ ok s'
      → IsNumbered prefix day rule s'
  either_way true x y h k e = settles h e
  either_way false x y h k e = settles k e

  written-IsNumbered :
      (s : System) (text : Line) (p : Phase)
      → IsNumbered prefix day rule s
      → IsNumbered prefix day rule (record s { phase = p; logfile = write_file s.logfile text })
  unfolding write_file
  written-IsNumbered s text p h = h

  batch-IsNumbered :
      (s s' : System) (today : Line)
      → IsNumbered prefix day rule s
      → thread_step_in batch today s ≡ ok s'
      → IsNumbered prefix day rule s'
  unfolding thread_step_in write_file
  batch-IsNumbered s s' today h run = elim (Bool-cases (length s.logger.next_buffer == 0)) [
    | inl null ↦
        let run' : ok (record s { phase = testing }) ≡ ok s' = rw null at run in
        let kept : IsNumbered prefix day rule (record s { phase = testing }) = h in
        settles kept run'
    | inr full ↦ elim (Run-cases (write_lines s.logger.next_buffer)) [
      | inr (e, failed) ↦ absurd (fault_stops (rw (full, failed) at run))
      | inl (text, fine) ↦
          let s₁ = record s {
            phase = rolling;
            logfile = write_file s.logfile text;
            logger = record (s.logger) { next_buffer = [] };
          } in
          let run' : ok s₁ ≡ ok s' = rw (full, fine) at run in
          let kept : IsNumbered prefix day rule s₁ = h in settles kept run'
    ]
  ]

  flush-IsNumbered :
      (s s' : System) (today : Line)
      → IsNumbered prefix day rule s
      → thread_step_in flushing today s ≡ ok s'
      → IsNumbered prefix day rule s'
  unfolding thread_step_in write_file
  flush-IsNumbered s s' today h run = elim (Run-cases (write_lines s.logger.current_buffer)) [
    | inr (e, failed) ↦ absurd (fault_stops (rw failed at run))
    | inl (text, fine) ↦
        let s₁ = record s { phase = finished; logfile = write_file s.logfile text } in
        let run' : ok s₁ ≡ ok s' = rw fine at run in
        settles (written-IsNumbered s text finished h) run'
  ]

  open_next-IsNumbered :
      (s : System)
      → IsNumbered prefix day rule s
      → IsNumbered prefix day rule (record (open_next s) { phase = testing })
  unfolding open_next next_log_file_name
  open_next-IsNumbered s (same_prefix, numbers, next, dated, ruled) =
      let named : s.logger.logfilename ++ b'_' ∷ decimal s.logger.suffix
          ≡ file_name prefix (length (s.logfile ∷ s.older)) =
        rw (same_prefix, next) in
      (same_prefix, (named, numbers), omega (arith, next), dated, ruled)

  thread_step_in-IsNumbered :
      (p : Phase) (s s' : System) (today : Line)
      → IsNumbered prefix day rule s
      → thread_step_in p today s ≡ ok s'
      → IsNumbered prefix day rule s'
  unfolding thread_step_in swap_buffers
  thread_step_in-IsNumbered testing s s' today h run =
      let kept : IsNumbered prefix day rule
          (record s { phase = if s.logger.running then locking else flushing }) =
        h in
      settles kept run
  thread_step_in-IsNumbered locking s s' today h run =
      let calm : IsNumbered prefix day rule (record s { phase = waiting }) = h in
      let busy : IsNumbered prefix day rule
          (record s { phase = batch; logger = swap_buffers s.logger }) =
        h in
      either_way (s.logger.running && ltb (length s.logger.current_buffer) s.logger.high_water_mask)
        _ _ calm busy run
  thread_step_in-IsNumbered waiting s s' today h run =
      let busy : IsNumbered prefix day rule
          (record s { phase = batch; logger = swap_buffers s.logger }) =
        h in
      settles busy run
  thread_step_in-IsNumbered batch s s' today h run = batch-IsNumbered s s' today h run
  thread_step_in-IsNumbered rolling s s' today h run =
      let roll =
        choose_roll s.logger.rolling_rule (over_size s.logger)
          (not (same today s.logger.current_date)) in
      let kept : IsNumbered prefix day rule (record s { phase = after_roll roll }) = h in
      settles kept run
  thread_step_in-IsNumbered resetting s s' today h run =
      let s₁ = record s { phase = opening; logger = record (s.logger) { accumulate_bytes = 0 } } in
      let kept : IsNumbered prefix day rule s₁ = h in settles kept run
  thread_step_in-IsNumbered opening s s' today h run = settles (open_next-IsNumbered s h) run
  thread_step_in-IsNumbered flushing s s' today h run = flush-IsNumbered s s' today h run
  thread_step_in-IsNumbered finished s s' today h run = settles h run

  Step-IsNumbered :
      {s s' : System} → Step s s' → IsNumbered prefix day rule s → IsNumbered prefix day rule s'
  unfolding push_line
  Step-IsNumbered {s} {s'} (threads today run) h =
      thread_step_in-IsNumbered s.phase s s' today h run
  Step-IsNumbered (enters line on) h = h
  Step-IsNumbered {s} {s'} (pushes before line after e run) h =
      let kept : IsNumbered prefix day rule (pushed before line after s) = h in
      subst (IsNumbered prefix day rule) (push_step-ok before line after s s' run) kept
  Step-IsNumbered stops h = h

Reach-IsNumbered :
    (l : AsyncLogging) (s : System)
    → l.suffix ≡ 0
    → Reach (start l) s
    → IsNumbered l.logfilename l.current_date l.rolling_rule s
unfolding start next_log_file_name
Reach-IsNumbered l s e begins = (refl, (rw e, tt), omega (arith, e), refl, refl)
Reach-IsNumbered l s e (goes_on r step) =
    Step-IsNumbered l.logfilename l.current_date l.rolling_rule step (Reach-IsNumbered l _ e r)

-- In every system that comes about after `start` of a logger that has opened no file before, the
-- files have the names prefix_0, prefix_1 and so on, in the order in which they were opened, and no
-- two of them have the same name.
pub Reach-AreNumbered :
    (l : AsyncLogging) (s : System)
    → l.suffix ≡ 0
    → Reach (start l) s
    → AreNumbered l.logfilename (s.logfile ∷ s.older) × AreDistinct (s.logfile ∷ s.older)
Reach-AreNumbered l s e r =
    let (p, n, k, dated, ruled) = Reach-IsNumbered l s e r in
    (n, AreNumbered-AreDistinct l.logfilename (s.logfile ∷ s.older) n)

-- The logger that the server makes on the day `day`, with the daily rule.
abbrev pub daily_logger : Line → ℕ → ℕ → Line → Rolling → ℕ → AsyncLogging
daily_logger name interval mask day rule bytes =
    set_rolling (new_logging name interval mask day rule bytes) rolling_daily

-- Under the daily rule, on every day but that on which the logger was made: in every system that
-- comes about after `start`, where the thread has a batch of lines before it, and none of them is
-- empty, three steps of the thread write the batch, open a new file behind it, and lead back to the
-- test of the loop. (So each batch ends its file, not only the first of a day.)
pub daily_reopens :
    (name : Line) (interval mask : ℕ) (day : Line) (rule : Rolling) (bytes : ℕ) (today : Line)
    (s : System)
    → Reach (start (daily_logger name interval mask day rule bytes)) s
    → same today day ≡ false
    → s.phase ≡ batch
    → 0 < length s.logger.next_buffer
    → AllFilled s.logger.next_buffer
    → (s' : System) × (thread_run 3 today s ≡ ok s')
      × (s'.phase ≡ testing)
      × (s'.older ≡ write_file s.logfile (lines_text s.logger.next_buffer) ∷ s.older)
      × (s'.logfile.contents ≡ [])
unfolding thread_run thread_step_in choose_roll open_next next_log_file_name new_logging set_rolling
daily_reopens name interval mask day rule bytes today s r new_day e some_lines filled =
    let (p, n, k, dated, ruled) =
      Reach-IsNumbered (daily_logger name interval mask day rule bytes) s refl r in
    let text = lines_text s.logger.next_buffer in
    let written_out = record s {
      phase = rolling;
      logfile = write_file s.logfile text;
      logger = record (s.logger) { next_buffer = [] };
    } in
    let has_lines : (length s.logger.next_buffer == 0) ≡ false = ground arith in
    let runs = write_lines_filled s.logger.next_buffer filled in
    (
      record (open_next written_out) { phase = testing },
      rw (e, has_lines, runs, ruled, dated, new_day),
      refl,
      refl,
      refl,
    )
