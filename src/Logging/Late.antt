-- ===== src/Logging/Late.antt =====
-- What happens to lines that are accepted after the thread of the log has ended.
use mathlib.Core.Path.{subst}
use yeyj_tcp_server.Base.{ok_inj, ◌≡◌, refl, sym, ap, ◌∙◌, ok}
use yeyj_tcp_server.Logging.Account.{push_step-ok, written}
use yeyj_tcp_server.Logging.{
  Line, System, finished, thread_step_in, push_line, Step, threads, enters, pushes, stops, Reach,
  begins, goes_on,
}

still :
    (s s' : System) (today : Line)
    → thread_step_in finished today s ≡ ok s'
    → s.phase ≡ finished
    → (s'.phase ≡ finished) × (written s' ≡ written s)
unfolding thread_step_in
still s s' today run e =
    subst (λ x. (x.phase ≡ finished) × (written x ≡ written s)) (ok_inj run) (e, refl)

Step-finished :
    {s s' : System}
    → Step s s'
    → s.phase ≡ finished
    → (s'.phase ≡ finished) × (written s' ≡ written s)
unfolding push_line
Step-finished {s} {s'} (threads today run) e =
    let run' : thread_step_in finished today s ≡ ok s' =
      ap (λ p. thread_step_in p today s) (sym e) ∙ run in
    still s s' today run' e
Step-finished (enters line on) e = (e, refl)
Step-finished {s} {s'} (pushes before line after h run) e =
    subst (λ x. (x.phase ≡ finished) × (written x ≡ written s))
      (push_step-ok before line after s s' run) (e, refl)
Step-finished stops e = (e, refl)

-- What the thread has written when it ends is all that is ever written: a line that is accepted
-- later, since its `append` had passed the test of `_running` before, is lost.
pub finished-written :
    (s s' : System)
    → s.phase ≡ finished
    → Reach s s'
    → (s'.phase ≡ finished) × (written s' ≡ written s)
finished-written s s' e begins = (e, refl)
finished-written s s' e (goes_on r step) =
    let (e', w) = finished-written s _ e r in let (e'', w') = Step-finished step e' in (e'', w' ∙ w)
