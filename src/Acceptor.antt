-- ===== src/Acceptor.antt =====
-- The loop of `Acceptor::start` in acceptor.cpp, over the results of `epoll_wait` and of `accept`. The
-- connection callback and `_serverCron` are parameters that change a state of any type. The set-up of
-- the listening socket in the constructor is not modelled.
use yeyj_tcp_server.Base.{
  Bool, if◌then◌else◌, List, [], ◌∷◌, Run, ok, fault, assertion, endless, ◌>>=◌,
}

-- A result of `accept`: a connection, an error after which the loop is left (EAGAIN, EWOULDBLOCK,
-- ECONNABORTED, EPROTO or EINTR), or another error.
pub data Accept (A : Type 0) : Type 0 where
  accepted : A → Accept A
  would_block : Accept A
  failed : Accept A

module _ {A T : Type 0} (connect : A → T → Run T) where
  -- The inner `while(true)`.
  unfoldable pub accept_loop : List (Accept A) → T → Run T
  accept_loop [] s = fault endless
  accept_loop (accepted a ∷ rest) s = do s' ← connect a s; accept_loop rest s'
  accept_loop (would_block ∷ rest) s = ok s
  accept_loop (failed ∷ rest) s = fault assertion

  -- A round of the outer loop; `ready` is `nfds == 1`.
  unfoldable pub accept_round : (T → Run T) → Bool → List (Accept A) → T → Run T
  accept_round cron ready results s = do s' ← if ready then accept_loop results s else ok s; cron s'
