-- ===== src/Example.antt =====
-- The program of main.cpp: the callbacks of a server that sends back what it receives. Text printed
-- to `std::cout` is not modelled.
pub mod Echoing
pub mod Serving
pub mod Admitting
use yeyj_tcp_server.Base.{ℕ, Option, some, List, Run, ok, codes, ◌>>=◌}
use yeyj_tcp_server.Connection.{Connection, Callbacks, receive_raw_as_string, send_raw}
use yeyj_tcp_server.Logging.{AsyncLogging, Line}
use yeyj_tcp_server.Server.Serving.{log}

-- `TcpConnection::log`, with the number and the name of the worker's thread and the time of the
-- server.
unfoldable pub log_message :
    Line → ℕ → Line → Line → Connection → Line → AsyncLogging → AsyncLogging
unfolding log
log_message level thread name time c msg logger =
    (log level thread name time c.peer_ip c.peer_port msg logger).0

-- `onMessage` with the line that it logs.
unfoldable pub on_message :
    ℕ → Line → Line → Connection → AsyncLogging → Run (Connection × AsyncLogging)
unfolding log_message
on_message thread name time c logger = do
  (text, c₁) ← receive_raw_as_string c
  let logger' = log_message (codes "DEBUG") thread name time c₁ text logger
  c₂ ← send_raw c₁ text
  ok (c₂, logger')

-- What `onMessage` does to the connection; the line that it logs is left out here, since a callback
-- has only the connection.
unfoldable pub echo : Connection → Run Connection
echo c = do (text, c₁) ← receive_raw_as_string c; send_raw c₁ text

-- The three callbacks that `main` sets; `onConnection` and `onDisconnection` only print.
unfoldable pub callbacks : Callbacks
unfolding echo
callbacks = record {
  on_connection = some (λ c. ok c);
  on_disconnection = some (λ c. ok c);
  on_message = some echo;
}
