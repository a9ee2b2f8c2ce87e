-- ===== src/Logging/Stopping.antt =====
-- After `stop()` the thread of the log ends, and has written what was accepted.
use yeyj_tcp_server.Base.{
  same, ℕ, suc, ◌+◌, ◌≤◌, ◌<◌, ◌≡◌, ◌≢◌, refl, sym, ap, ◌∙◌, arith, false, not, ◌&&◌, List, [], ◌∷◌,
  append-nil, ltb, ◌==◌, if◌then◌else◌, Bool-cases, inl, inr, length, ok, ◌>>=◌, Returns,
}
use yeyj_tcp_server.Logging.Account.{
  lines_text, written, Account, null_of_length, swap_text, empty_text, batch_text, flush_text,
  earlier_text,
}
use yeyj_tcp_server.Logging.Conserved.{after_roll, Reach-IsConserved}
use yeyj_tcp_server.Logging.{
  Line, AsyncLogging, System, Phase, testing, locking, waiting, batch, rolling, resetting, opening,
  flushing, finished, write_line, write_lines, write_file, swap_buffers, open_next,
  next_log_file_name, thread_step_in, thread_step, thread_run, start, choose_roll, Roll, keep,
  reopen, reset_reopen, over_size, Reach,
}

-- No line is empty.
abbrev pub AllFilled : List Line → Type 0
AllFilled [] = Unit {0}
AllFilled (line ∷ lines) = (0 < length line) × AllFilled lines

pub write_lines_filled :
    (lines : List Line) → AllFilled lines → write_lines lines ≡ ok (lines_text lines)
unfolding write_lines write_line
write_lines_filled [] h = refl
write_lines_filled ([] ∷ lines) h = absurd (omega arith)
write_lines_filled ((c ∷ cs) ∷ lines) h = rw (write_lines_filled lines h.1)

-- `stop()` has been called, and the buffers hold no empty line.
pub record IsStopped (s : System) : Type 0 where
  pub off : s.logger.running ≡ false
  pub filled_current : AllFilled s.logger.current_buffer
  pub filled_next : AllFilled s.logger.next_buffer

-- With `n` steps of the thread alone it ends, and all that is accepted is in the files.
abbrev pub EndsWithin : ℕ → Line → System → Type 0
EndsWithin n today s =
    Returns (thread_run n today s)
      (λ s'. (s'.phase ≡ finished) × (written s' ≡ lines_text s.accepted))

abbrev Held : Phase → System → Type 0
Held p s = Account p (written s) s.logger.next_buffer s.logger.current_buffer s.accepted

step_then :
    (n : ℕ) (today : Line) (p : Phase) (s s₁ : System)
    → s.phase ≡ p
    → thread_step_in p today s ≡ ok s₁
    → s₁.accepted ≡ s.accepted
    → EndsWithin n today s₁
    → EndsWithin (suc n) today s
unfolding thread_run
step_then n today p s s₁ e run same_lines (s', rest, (done, all)) =
    let first : thread_step today s ≡ ok s₁ = ap (λ q. thread_step_in q today s) e ∙ run in
    (s', ap (λ r. r >>= thread_run n today) first ∙ rest, (done, all ∙ ap lines_text same_lines))

from_flushing :
    (today : Line) (s : System)
    → s.phase ≡ flushing
    → IsStopped s
    → Held flushing s
    → EndsWithin 1 today s
unfolding thread_step_in thread_run write_file
from_flushing today s e h (n, t) =
    let text = lines_text s.logger.current_buffer in
    let s₁ = record s { phase = finished; logfile = write_file s.logfile text } in
    let fine = write_lines_filled s.logger.current_buffer h.filled_current in
    step_then 0 today flushing s s₁ e (rw fine) refl (
      s₁,
      refl,
      (
        refl,
        sym (append-nil (written s₁))
            ∙ flush_text (earlier_text s.older) s.logfile.contents s.logger.current_buffer
                s.accepted text refl t,
      ),
    )

from_testing :
    (today : Line) (s : System)
    → s.phase ≡ testing
    → IsStopped s
    → Held testing s
    → EndsWithin 2 today s
unfolding thread_step_in
from_testing today s e h t =
    let s₁ = record s { phase = flushing } in
    step_then 1 today testing s s₁ e
      (ap (λ on. ok (record s { phase = if on then locking else flushing })) h.off) refl
      (from_flushing today s₁ refl
        (record { off = h.off; filled_current = h.filled_current; filled_next = h.filled_next }) t)

from_opening :
    (today : Line) (s : System)
    → s.phase ≡ opening
    → IsStopped s
    → Held opening s
    → EndsWithin 3 today s
unfolding thread_step_in open_next next_log_file_name
from_opening today s e h (n, t) =
    let s₁ = record (open_next s) { phase = testing } in
    step_then 2 today opening s s₁ e refl refl (
      from_testing today s₁ refl
        (record { off = h.off; filled_current = h.filled_current; filled_next = h.filled_next })
        (n, simp append-nil t))

from_resetting :
    (today : Line) (s : System)
    → s.phase ≡ resetting
    → IsStopped s
    → Held resetting s
    → EndsWithin 4 today s
unfolding thread_step_in
from_resetting today s e h t =
    let s₁ = record s { phase = opening; logger = record (s.logger) { accumulate_bytes = 0 } } in
    step_then 3 today resetting s s₁ e refl refl (
      from_opening today s₁ refl
        (record { off = h.off; filled_current = h.filled_current; filled_next = h.filled_next }) t)

-- At most `n` steps of the thread alone.
abbrev pub EndsSoon : ℕ → Line → System → Type 0
EndsSoon n today s = (k : ℕ) × (k ≤ n) × EndsWithin k today s

soon_then :
    (n : ℕ) (today : Line) (p : Phase) (s s₁ : System)
    → s.phase ≡ p
    → thread_step_in p today s ≡ ok s₁
    → s₁.accepted ≡ s.accepted
    → EndsSoon n today s₁
    → EndsSoon (n + 1) today s
soon_then n today p s s₁ e run same_lines (k, few, ends) =
    (suc k, omega arith, step_then k today p s s₁ e run same_lines ends)

rolled :
    (today : Line) (s : System) (roll : Roll)
    → IsStopped s
    → Held rolling s
    → EndsSoon 4 today (record s { phase = after_roll roll })
rolled today s keep h t = (
  2,
  omega arith,
  from_testing today (record s { phase = testing }) refl
      (record { off = h.off; filled_current = h.filled_current; filled_next = h.filled_next }) t,
)
rolled today s reopen h t = (
  3,
  omega arith,
  from_opening today (record s { phase = opening }) refl
      (record { off = h.off; filled_current = h.filled_current; filled_next = h.filled_next }) t,
)
rolled today s reset_reopen h t = (
  4,
  omega arith,
  from_resetting today (record s { phase = resetting }) refl
      (record { off = h.off; filled_current = h.filled_current; filled_next = h.filled_next }) t,
)

from_rolling :
    (today : Line) (s : System)
    → s.phase ≡ rolling
    → IsStopped s
    → Held rolling s
    → EndsSoon 5 today s
unfolding thread_step_in
from_rolling today s e h t =
    let roll =
      choose_roll s.logger.rolling_rule (over_size s.logger)
        (not (same today s.logger.current_date)) in
    soon_then 4 today rolling s (record s { phase = after_roll roll }) e refl refl
      (rolled today s roll h t)

from_batch :
    (today : Line) (s : System) → s.phase ≡ batch → IsStopped s → Held batch s → EndsSoon 6 today s
unfolding thread_step_in write_file
from_batch today s e h t = elim (Bool-cases (length s.logger.next_buffer == 0)) [
  | inl null ↦
      let n = null_of_length s.logger.next_buffer null in
      let (k, few, ends) =
        soon_then 2 today batch s (record s { phase = testing }) e (rw null) refl
          (
            2,
            omega arith,
            from_testing today (record s { phase = testing }) refl
                (record {
                  off = h.off;
                  filled_current = h.filled_current;
                  filled_next = h.filled_next;
                })
                (
                  n,
                  empty_text (written s) s.logger.next_buffer s.logger.current_buffer s.accepted n
                      t,
                ),
          ) in
      (k, omega arith, ends)
  | inr full ↦
      let text = lines_text s.logger.next_buffer in
      let s₁ = record s {
        phase = rolling;
        logfile = write_file s.logfile text;
        logger = record (s.logger) { next_buffer = [] };
      } in
      soon_then 5 today batch s s₁ e
        (rw (full, write_lines_filled s.logger.next_buffer h.filled_next)) refl
        (from_rolling today s₁ refl
          (record { off = h.off; filled_current = h.filled_current; filled_next = tt })
          (
            refl,
            batch_text (earlier_text s.older) s.logfile.contents s.logger.next_buffer
                s.logger.current_buffer s.accepted text refl t,
          ))
]

swapped :
    (today : Line) (p : Phase) (s : System)
    → s.phase ≡ p
    → thread_step_in p today s ≡ ok (record s { phase = batch; logger = swap_buffers s.logger })
    → IsStopped s
    → Held waiting s
    → EndsSoon 7 today s
unfolding swap_buffers
swapped today p s e run h (n, t) =
    soon_then 6 today p s (record s { phase = batch; logger = swap_buffers s.logger }) e run refl
      (from_batch today (record s { phase = batch; logger = swap_buffers s.logger }) refl
        (record { off = h.off; filled_current = h.filled_next; filled_next = h.filled_current })
        (swap_text (written s) s.logger.next_buffer s.logger.current_buffer s.accepted n t))

locked_swaps :
    (today : Line) (s : System)
    → s.logger.running ≡ false
    → thread_step_in locking today s
      ≡ ok (record s { phase = batch; logger = swap_buffers s.logger })
unfolding thread_step_in
locked_swaps today s off =
    ap
      (λ on. ok (
        if on && ltb (length s.logger.current_buffer) s.logger.high_water_mask
        then record s { phase = waiting }
        else record s { phase = batch; logger = swap_buffers s.logger }))
      off

from_phase :
    (today : Line) (p : Phase) (s : System)
    → p ≢ finished
    → s.phase ≡ p
    → IsStopped s
    → Held p s
    → EndsSoon 7 today s
unfolding thread_step_in
from_phase today testing s live e h t = (2, omega arith, from_testing today s e h t)
from_phase today locking s live e h t = swapped today locking s e (locked_swaps today s h.off) h t
from_phase today waiting s live e h t = swapped today waiting s e refl h t
from_phase today batch s live e h t =
    let (k, few, ends) = from_batch today s e h t in (k, omega arith, ends)
from_phase today rolling s live e h t =
    let (k, few, ends) = from_rolling today s e h t in (k, omega arith, ends)
from_phase today resetting s live e h t = (4, omega arith, from_resetting today s e h t)
from_phase today opening s live e h t = (3, omega arith, from_opening today s e h t)
from_phase today flushing s live e h t = (1, omega arith, from_flushing today s e h t)
from_phase today finished s live e h t = absurd (live refl)

-- Once `stop()` has been called on a system that has come about after `start`, with no empty line
-- in its buffers, and the thread has not ended: at most seven steps of the thread, with no other
-- step in between, end it, and then the files hold all lines that were accepted, in order.
pub stop-EndsSoon :
    (l : AsyncLogging) (today : Line) (s : System)
    → l.current_buffer ≡ []
    → l.next_buffer ≡ []
    → Reach (start l) s
    → s.phase ≢ finished
    → IsStopped s
    → EndsSoon 7 today s
stop-EndsSoon l today s c n r live stopped =
    from_phase today s.phase s live refl stopped (Reach-IsConserved l s c n r)
