-- ===== src/Logging/Account.antt =====
-- Where the accepted lines of the log are, as texts.
use yeyj_tcp_server.Base.{
  ok_inj, fault, data_race, Bool-cases, ◌≡◌, refl, sym, ap, ◌∙◌, arith, true, List, [], ◌∷◌, ◌++◌,
  append-nil, append_assoc, ◌==◌, inl, inr, length, ok, Run-cases,
}
use yeyj_tcp_server.Logging.{
  push_step, pushed, reads_unlocked, Line, LogFile, System, Phase, testing, locking, waiting, batch,
  rolling, resetting, opening, flushing, finished, newline_ended, write_line, write_lines,
}

-- Where a push is defined, the line is in the buffer, and accepted.
pub push_step-ok :
    (before : List Line) (line : Line) (after : List Line) (s s' : System)
    → push_step before line after s ≡ ok s'
    → pushed before line after s ≡ s'
unfolding push_step
push_step-ok before line after s s' run = elim (Bool-cases (reads_unlocked s.phase)) [
  | inl unlocked ↦ let run' : fault data_race ≡ ok s' = rw unlocked at run in absurd (cc run')
  | inr locked ↦
      let run' : ok (pushed before line after s) ≡ ok s' = rw locked at run in ok_inj run'
]

-- What a list of lines looks like in a file.
abbrev pub lines_text : List Line → Line
lines_text [] = []
lines_text (line ∷ lines) = newline_ended line ++ lines_text lines

pub lines_text-append : (xs ys : List Line) → lines_text (xs ++ ys) ≡ lines_text xs ++ lines_text ys
lines_text-append [] ys = refl
lines_text-append (x ∷ xs) ys =
    ap (λ t. newline_ended x ++ t) (lines_text-append xs ys)
    ∙ sym (append_assoc (newline_ended x) (lines_text xs) (lines_text ys))

pub write_lines-lines_text :
    (lines : List Line) (text : Line) → write_lines lines ≡ ok text → text ≡ lines_text lines
unfolding write_lines write_line
write_lines-lines_text [] text h = ground arith
write_lines-lines_text ([] ∷ lines) text h = absurd (ground arith)
write_lines-lines_text ((c ∷ cs) ∷ lines) text h = elim (Run-cases (write_lines lines)) [
  | inr (e, failed) ↦ absurd (ground (arith))
  | inl (rest, fine) ↦
      let whole : ok (newline_ended (c ∷ cs) ++ rest) ≡ ok text = rw fine at h in
      ground (arith, write_lines-lines_text lines rest)
]

abbrev pub earlier_text : List LogFile → Line
earlier_text [] = []
earlier_text (f ∷ fs) = earlier_text fs ++ f.contents

-- All that has been written, file after file.
abbrev pub written : System → Line
written s = earlier_text s.older ++ s.logfile.contents

-- Where the accepted lines are: in the files, in the buffer that is being written, and in the one
-- that is being filled; at the end of the thread, lines may have come too late.
abbrev pub Account : Phase → Line → List Line → List Line → List Line → Type 0
Account batch text next current accepted =
    text ++ (lines_text next ++ lines_text current) ≡ lines_text accepted
Account finished text next current accepted =
    (late : List Line) × (text ++ lines_text late ≡ lines_text accepted)
Account _ text next current accepted =
    (next ≡ []) × (text ++ lines_text current ≡ lines_text accepted)

push_text :
    (text : Line) (xs accepted : List Line) (line : Line)
    → text ++ lines_text xs ≡ lines_text accepted
    → text ++ lines_text (xs ++ line ∷ []) ≡ lines_text (accepted ++ line ∷ [])
push_text text xs accepted line h =
    ap (λ t. text ++ t) (lines_text-append xs (line ∷ []))
    ∙ sym (append_assoc text (lines_text xs) (lines_text (line ∷ [])))
    ∙ ap (λ t. t ++ lines_text (line ∷ [])) h
    ∙ sym (lines_text-append accepted (line ∷ []))

pub push-Account :
    (p : Phase) (text : Line) (next current accepted : List Line) (line : Line)
    → Account p text next current accepted
    → Account p text next (current ++ line ∷ []) (accepted ++ line ∷ [])
push-Account batch text next current accepted line h =
    ap (λ t. text ++ t) (sym (lines_text-append next (current ++ line ∷ [])))
    ∙ ap (λ t. text ++ lines_text t) (sym (append_assoc next current (line ∷ [])))
    ∙ push_text text (next ++ current) accepted line
        (ap (λ t. text ++ t) (lines_text-append next current) ∙ h)
push-Account finished text next current accepted line (late, h) =
    (late ++ line ∷ [], push_text text late accepted line h)
push-Account testing text next current accepted line (e, h) =
    (e, push_text text current accepted line h)
push-Account locking text next current accepted line (e, h) =
    (e, push_text text current accepted line h)
push-Account waiting text next current accepted line (e, h) =
    (e, push_text text current accepted line h)
push-Account rolling text next current accepted line (e, h) =
    (e, push_text text current accepted line h)
push-Account resetting text next current accepted line (e, h) =
    (e, push_text text current accepted line h)
push-Account opening text next current accepted line (e, h) =
    (e, push_text text current accepted line h)
push-Account flushing text next current accepted line (e, h) =
    (e, push_text text current accepted line h)

pub swap_text :
    (text : Line) (next current accepted : List Line)
    → next ≡ []
    → text ++ lines_text current ≡ lines_text accepted
    → text ++ (lines_text current ++ lines_text next) ≡ lines_text accepted
swap_text text next current accepted e h = rw (e, append-nil) h

-- Writing a batch takes it from the buffer to the file.
pub batch_text :
    (older current : Line) (next now accepted : List Line) (text : Line)
    → text ≡ lines_text next
    → (older ++ current) ++ (lines_text next ++ lines_text now) ≡ lines_text accepted
    → (older ++ (current ++ text)) ++ lines_text now ≡ lines_text accepted
batch_text older current next now accepted text e h =
    rw e (simp append_assoc (simp append_assoc at h))

pub null_of_length : (lines : List Line) → (length lines == 0) ≡ true → lines ≡ []
null_of_length [] h = refl
null_of_length (x ∷ lines) h = absurd (ground arith)

pub empty_text :
    (text : Line) (next current accepted : List Line)
    → next ≡ []
    → text ++ (lines_text next ++ lines_text current) ≡ lines_text accepted
    → text ++ lines_text current ≡ lines_text accepted
empty_text text next current accepted e h = rw e at h

pub flush_text :
    (older current : Line) (now accepted : List Line) (text : Line)
    → text ≡ lines_text now
    → (older ++ current) ++ lines_text now ≡ lines_text accepted
    → (older ++ (current ++ text)) ++ [] ≡ lines_text accepted
flush_text older current now accepted text e h =
    rw e (simp (append_assoc, append-nil) (simp append_assoc at h))
