-- ===== src/Logging/Conserved.antt =====
-- No line of the log is lost or written twice, whatever the threads do in which order.
use mathlib.Core.Path.{subst}
use yeyj_tcp_server.Base.{
  ok_inj, fault_stops, same, ◌≡◌, refl, Bool, true, false, not, ◌&&◌, [], append-nil, ltb, ◌==◌,
  if◌then◌else◌, Bool-cases, inl, inr, length, ok, Run-cases,
}
use yeyj_tcp_server.Logging.Account.{
  push_step-ok, write_lines-lines_text, earlier_text, written, Account, push-Account, swap_text,
  batch_text, null_of_length, empty_text, flush_text,
}
use yeyj_tcp_server.Logging.{
  Line, AsyncLogging, System, Phase, testing, locking, waiting, batch, rolling, resetting, opening,
  flushing, finished, write_lines, write_file, swap_buffers, push_line, open_next,
  next_log_file_name, start, thread_step_in, choose_roll, Roll, keep, reopen, reset_reopen,
  over_size, Step, threads, enters, pushes, stops, Reach, begins, goes_on,
}

abbrev pub IsConserved : System → Type 0
IsConserved s = Account s.phase (written s) s.logger.next_buffer s.logger.current_buffer s.accepted

-- A step whose outcome is known.
ends_in : {x s' : System} → IsConserved x → ok x ≡ ok s' → IsConserved s'
ends_in h e = subst IsConserved (ok_inj e) h

lock-IsConserved :
    (s s' : System) (today : Line)
    → Account locking (written s) s.logger.next_buffer s.logger.current_buffer s.accepted
    → thread_step_in locking today s ≡ ok s'
    → IsConserved s'
unfolding thread_step_in swap_buffers
lock-IsConserved s s' today (e, h) run =
    elim (Bool-cases
      (s.logger.running && ltb (length s.logger.current_buffer) s.logger.high_water_mask)) [
        | inl few ↦
            let run' : ok (record s { phase = waiting }) ≡ ok s' = rw few at run in
            let held : IsConserved (record s { phase = waiting }) = (e, h) in ends_in held run'
        | inr many ↦
            let run' : ok (record s { phase = batch; logger = swap_buffers s.logger }) ≡ ok s' =
              rw many at run in
            let held : IsConserved (record s { phase = batch; logger = swap_buffers s.logger }) =
              swap_text (written s) s.logger.next_buffer s.logger.current_buffer s.accepted e h in
            ends_in held run'
      ]

batch-IsConserved :
    (s s' : System) (today : Line)
    → Account batch (written s) s.logger.next_buffer s.logger.current_buffer s.accepted
    → thread_step_in batch today s ≡ ok s'
    → IsConserved s'
unfolding thread_step_in write_file
batch-IsConserved s s' today h run = elim (Bool-cases (length s.logger.next_buffer == 0)) [
  | inl null ↦
      let none_left : s.logger.next_buffer ≡ [] = null_of_length s.logger.next_buffer null in
      let run' : ok (record s { phase = testing }) ≡ ok s' = rw null at run in
      let held : IsConserved (record s { phase = testing }) = (
        none_left,
        empty_text (written s) s.logger.next_buffer s.logger.current_buffer s.accepted none_left h,
      ) in
      ends_in held run'
  | inr full ↦ elim (Run-cases (write_lines s.logger.next_buffer)) [
    | inr (e, failed) ↦ absurd (fault_stops (rw (full, failed) at run))
    | inl (text, fine) ↦
        let s₁ = record s {
          phase = rolling;
          logfile = write_file s.logfile text;
          logger = record (s.logger) { next_buffer = [] };
        } in
        let run' : ok s₁ ≡ ok s' = rw (full, fine) at run in
        let held : IsConserved s₁ = (
          refl,
          batch_text (earlier_text s.older) s.logfile.contents s.logger.next_buffer
              s.logger.current_buffer s.accepted text
              (write_lines-lines_text s.logger.next_buffer text fine) h,
        ) in
        ends_in held run'
  ]
]

flush-IsConserved :
    (s s' : System) (today : Line)
    → Account flushing (written s) s.logger.next_buffer s.logger.current_buffer s.accepted
    → thread_step_in flushing today s ≡ ok s'
    → IsConserved s'
unfolding thread_step_in write_file
flush-IsConserved s s' today (e, h) run = elim (Run-cases (write_lines s.logger.current_buffer)) [
  | inr (e, failed) ↦ absurd (fault_stops (rw failed at run))
  | inl (text, fine) ↦
      let s₁ = record s { phase = finished; logfile = write_file s.logfile text } in
      let run' : ok s₁ ≡ ok s' = rw fine at run in
      let held : IsConserved s₁ = (
        [],
        flush_text (earlier_text s.older) s.logfile.contents s.logger.current_buffer s.accepted text
            (write_lines-lines_text s.logger.current_buffer text fine) h,
      ) in
      ends_in held run'
]

testing-IsConserved :
    (s s' : System) (on : Bool)
    → Account testing (written s) s.logger.next_buffer s.logger.current_buffer s.accepted
    → ok (record s { phase = if on then locking else flushing }) ≡ ok s'
    → IsConserved s'
testing-IsConserved s s' true h run =
    let held : IsConserved (record s { phase = locking }) = h in ends_in held run
testing-IsConserved s s' false h run =
    let held : IsConserved (record s { phase = flushing }) = h in ends_in held run

-- Where the end of a round goes on.
abbrev pub after_roll : Roll → Phase
after_roll keep = testing
after_roll reopen = opening
after_roll reset_reopen = resetting

rolling-IsConserved :
    (s s' : System) (roll : Roll)
    → Account rolling (written s) s.logger.next_buffer s.logger.current_buffer s.accepted
    → ok (record s { phase = after_roll roll }) ≡ ok s'
    → IsConserved s'
rolling-IsConserved s s' keep h run =
    let held : IsConserved (record s { phase = testing }) = h in ends_in held run
rolling-IsConserved s s' reopen h run =
    let held : IsConserved (record s { phase = opening }) = h in ends_in held run
rolling-IsConserved s s' reset_reopen h run =
    let held : IsConserved (record s { phase = resetting }) = h in ends_in held run

thread_step_in-IsConserved :
    (p : Phase) (s s' : System) (today : Line)
    → s.phase ≡ p
    → Account p (written s) s.logger.next_buffer s.logger.current_buffer s.accepted
    → thread_step_in p today s ≡ ok s'
    → IsConserved s'
unfolding thread_step_in swap_buffers open_next next_log_file_name
thread_step_in-IsConserved testing s s' today e h run =
    testing-IsConserved s s' s.logger.running h run
thread_step_in-IsConserved locking s s' today e h run = lock-IsConserved s s' today h run
thread_step_in-IsConserved waiting s s' today e (n, h) run =
    let s₁ = record s { phase = batch; logger = swap_buffers s.logger } in
    let held : IsConserved s₁ =
      swap_text (written s) s.logger.next_buffer s.logger.current_buffer s.accepted n h in
    ends_in held run
thread_step_in-IsConserved batch s s' today e h run = batch-IsConserved s s' today h run
thread_step_in-IsConserved rolling s s' today e h run =
    rolling-IsConserved s s'
      (choose_roll s.logger.rolling_rule (over_size s.logger)
        (not (same today s.logger.current_date)))
      h run
thread_step_in-IsConserved resetting s s' today e h run =
    let s₁ = record s { phase = opening; logger = record (s.logger) { accumulate_bytes = 0 } } in
    let held : IsConserved s₁ = h in ends_in held run
thread_step_in-IsConserved opening s s' today e (n, h) run =
    let held : IsConserved (record (open_next s) { phase = testing }) = (n, simp append-nil h) in
    ends_in held run
thread_step_in-IsConserved flushing s s' today e h run = flush-IsConserved s s' today h run
thread_step_in-IsConserved finished s s' today e h run =
    let held : IsConserved s = rw e h in ends_in held run

Step-IsConserved : {s s' : System} → Step s s' → IsConserved s → IsConserved s'
unfolding push_line
Step-IsConserved {s} {s'} (threads today run) h =
    thread_step_in-IsConserved s.phase s s' today refl h run
Step-IsConserved (enters line on) h = h
Step-IsConserved {s} {s'} (pushes before line after e run) h =
    subst IsConserved (push_step-ok before line after s s' run) (
      push-Account s.phase (written s) s.logger.next_buffer s.logger.current_buffer s.accepted line
        h)
Step-IsConserved stops h = h

pub Reach-IsConserved :
    (l : AsyncLogging) (s : System)
    → l.current_buffer ≡ []
    → l.next_buffer ≡ []
    → Reach (start l) s
    → IsConserved s
unfolding start next_log_file_name
Reach-IsConserved l s e n begins = (n, rw e)
Reach-IsConserved l s e n (goes_on r step) = Step-IsConserved step (Reach-IsConserved l _ e n r)
