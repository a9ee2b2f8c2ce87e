-- ===== src/Example/Echoing.antt =====
-- `onMessage` of main.cpp: what has arrived is sent back.
use yeyj_tcp_server.Base.{
  Bool, true, false, refl, ◌++◌, if◌then◌else◌, ℕ, ◌+◌, ◌-◌, ◌≤◌, ◌≡◌, arith, List, [], ok, Returns,
  length, take, min, codes, ◌∷◌, take-all,
}
use yeyj_tcp_server.Buffer.Read.{read-ok, after}
use yeyj_tcp_server.Buffer.Ring.{contents, IsValid, max_bytes, length-contents}
use yeyj_tcp_server.Buffer.Write.{Grows, Extends, write_lem}
use yeyj_tcp_server.Buffer.{Buffer, c_string, write, read_all_as_string}
use yeyj_tcp_server.Connection.{Connection, receive_raw_as_string, send_raw}
use yeyj_tcp_server.Example.{log_message, on_message, echo}
use yeyj_tcp_server.Logging.{AsyncLogging, Line, append, push_line}
use yeyj_tcp_server.Server.Serving.{log, log_line}

c_string_short : (cs : List ℕ) → length (c_string cs) ≤ length cs
unfolding c_string
c_string_short [] = omega arith
c_string_short (c ∷ cs) = ground (arith, c_string_short cs)

-- What `onMessage` sends: what has arrived, up to a null byte, as far as it fits.
abbrev pub answer : Connection → List ℕ
answer c = take (c.write_buffer.max_size - c.write_buffer.count) (c_string (contents c.read_buffer))

abbrev pub emptied : Connection → Buffer → Connection
emptied c w = record c { read_buffer = after c.read_buffer.count c.read_buffer; write_buffer = w }

received :
    (c : Connection)
    → IsValid c.read_buffer
    → receive_raw_as_string c
      ≡ ok (
        c_string (contents c.read_buffer),
        record c { read_buffer = after c.read_buffer.count c.read_buffer },
      )
unfolding receive_raw_as_string read_all_as_string
received c v =
    let b = c.read_buffer in
    let whole : min b.count b.count ≡ b.count = omega arith in
    rw (read-ok b.count v, whole, take-all b.count (contents b) (omega (arith, length-contents b)))

-- A connection whose messages can be sent back: its buffers are valid, their largest sizes have a sum
-- of at most 1 GiB, and the one that is written grows.
abbrev pub MayEcho : Connection → Type 0
MayEcho c =
    IsValid c.read_buffer
    × IsValid c.write_buffer
    × Grows c.write_buffer.grow_factor
    × (c.read_buffer.max_size + c.write_buffer.max_size ≤ max_bytes)

echo_sends :
    (c : Connection)
    → MayEcho c
    → Returns
        (write c.write_buffer (c_string (contents c.read_buffer)))
        (λ r. Extends c.write_buffer (answer c) r.1)
echo_sends c (v, v', g, small) =
    let text = c_string (contents c.read_buffer) in
    let fits : c.write_buffer.count + length text ≤ max_bytes = omega (
      arith,
      c_string_short (contents c.read_buffer),
      length-contents c.read_buffer,
      v.bounded,
      v.count_in,
      v'.bounded,
      v'.count_in,
    ) in
    let (r, wrote, (taken, x)) = write_lem text v' g fits in (r, wrote, x)

-- `onMessage` of a connection whose messages can be sent back does not fault: what has arrived, up
-- to a null byte, is in the write buffer behind what was there, as far as it fits; where the logger
-- is running, the line of a debug message with that text is the last that it has to write; and the
-- read buffer is empty, a null byte and what follows it included.
pub on_message_lem :
    (thread : ℕ) (name time : Line) (c : Connection) (logger : AsyncLogging)
    → MayEcho c
    → (w : Buffer) × (l : AsyncLogging) × (on_message thread name time c logger
        ≡ ok (emptied c w, l))
      × Extends c.write_buffer (answer c) w
      × (l.current_buffer ≡ (
          if logger.running
          then logger.current_buffer
            ++ log_line
                (codes "DEBUG")
                thread
                name
                time
                c.peer_ip
                c.peer_port
                (c_string (contents c.read_buffer))
              ∷ []
          else logger.current_buffer))
unfolding on_message log_message log append push_line send_raw
on_message_lem thread name time c logger may =
    let (r, wrote, x) = echo_sends c may in
    let text = c_string (contents c.read_buffer) in
    (
      r.1,
      log_message (codes "DEBUG") thread name time c text logger,
      rw (received c may.0, wrote),
      x,
      either_way logger.running,
    )
  where
    either_way :
        (b : Bool)
        → (if b
            then push_line logger (
                log_line
                  (codes "DEBUG")
                  thread
                  name
                  time
                  c.peer_ip
                  c.peer_port
                  (c_string (contents c.read_buffer)))
            else (logger, false)).0.current_buffer
          ≡ (if b
              then logger.current_buffer
                ++ log_line
                    (codes "DEBUG")
                    thread
                    name
                    time
                    c.peer_ip
                    c.peer_port
                    (c_string (contents c.read_buffer))
                  ∷ []
              else logger.current_buffer)
    either_way true = refl
    either_way false = refl

pub echo_lem :
    (c : Connection)
    → MayEcho c
    → (w : Buffer) × (echo c ≡ ok (emptied c w)) × Extends c.write_buffer (answer c) w
unfolding echo send_raw
echo_lem c may = let (r, wrote, x) = echo_sends c may in (r.1, rw (received c may.0, wrote), x)
