-- ===== src/Udp/Replies.antt =====
-- What becomes of datagrams and of replies, and how long a session lives.
use rathole_pro.Prelude.{
  ℕ, ◌+◌, ◌-◌, ◌≤◌, ◌<◌, ◌≡◌, ◌≢◌, ◌↔◌, refl, false, List, [], ◌∷◌, ◌++◌, length, none, some, arith,
  ltb, All,
}
use rathole_pro.Prelude.Exec.{ok}
use rathole_pro.Net.{Conn}
use rathole_pro.Net.Laws.{write_ok}
use rathole_pro.Udp.Sessions.{
  find, store, find-store, bytes_eq_refl, bytes_eq→eq, find-delete_if-none, find-delete_if_keeps,
  find-delete_if_drops,
}
use rathole_pro.Udp.{
  UdpSession, Forwarder, session_timeout, server_frame, on_datagram, on_frame, on_tick,
  client_frame, read_client_frame, Event, datagram, frame, tick, step, run,
}
use rathole_pro.Udp.Frames.{read_server_frame_ok, read_client_frame_ok}

-- On open connections with room for the frame, and with an address and a datagram below 65536
-- bytes, a datagram goes out in one frame, which the client's side turns back into the datagram.
pub datagram_arrives :
    (addr payload rest : List ℕ) (now : ℕ) (f : Forwarder) (client : Conn)
    → length addr < 65536
    → length payload < 65536
    → f.stream.closed ≡ false
    → length (server_frame addr payload) ≤ f.stream.room
    → client.closed ≡ false
    → client.incoming ≡ server_frame addr payload ++ rest
    → ((on_datagram addr payload now f).1.stream.outgoing
        ≡ f.stream.outgoing ++ server_frame addr payload)
      × ((on_datagram addr payload now f).0 ≡ ok tt)
      × (read_client_frame client ≡ (ok payload, record client { incoming = rest }))
unfolding on_datagram
datagram_arrives addr payload rest now f client a p o room co e =
    let w = write_ok (server_frame addr payload) f.stream o room in
    (ground (arith, w), ground (arith, w), read_client_frame_ok addr payload rest client a p co e)

-- A frame with the address of a datagram for its key, read from the open stream after a cleanup
-- that comes no later than the timeout, is sent to that address, if address and payload are below
-- 65536 bytes.
pub keyed_reply_delivered :
    (addr payload reply rest : List ℕ) (now later : ℕ) (f g : Forwarder)
    → length addr < 65536
    → length reply < 65536
    → later ≤ now + session_timeout
    → g ≡ on_tick later (on_datagram addr payload now f).1
    → g.stream.closed ≡ false
    → g.stream.incoming ≡ server_frame addr reply ++ rest
    → (on_frame g).1.sent ≡ g.sent ++ (addr, reply) ∷ []
unfolding on_frame on_datagram on_tick
keyed_reply_delivered addr payload reply rest now later f g a p soon same o e = ground (
  arith,
  read_server_frame_ok addr reply rest g.stream,
  find-store addr addr (record { addr = addr; last_seen = now }) f.sessions,
  bytes_eq_refl addr,
  find-delete_if_keeps (λ (s : UdpSession). ltb session_timeout (later - s.last_seen)) addr
      (store addr (record { addr = addr; last_seen = now }) f.sessions)
      (record { addr = addr; last_seen = now }),
)

-- The cleanup keeps a session that the table finds exactly if it was silent for no longer than the
-- timeout.
pub on_tick_iff :
    (now : ℕ) (key : List ℕ) (f : Forwarder) (s : UdpSession)
    → find key f.sessions ≡ some s
    → (find key (on_tick now f).sessions ≡ some s) ↔ (now - s.last_seen ≤ session_timeout)
unfolding on_tick
on_tick_iff now key f s e =
    let late = λ (v : UdpSession). ltb session_timeout (now - v.last_seen) in
    (
      λ kept. ground (arith, find-delete_if_drops late key f.sessions s kept),
      λ recent. find-delete_if_keeps late key f.sessions s e (ground arith),
    )

-- No session has the empty key.
abbrev pub NoEmptyKey : Forwarder → Type 0
NoEmptyKey f = find [] f.sessions ≡ none

-- Every datagram comes from an address with a text.
abbrev pub HasAddress : Event → Type 0
HasAddress (datagram addr payload now) = addr ≢ []
HasAddress frame = Unit {0}
HasAddress (tick now) = Unit {0}

sessions-on_datagram :
    (addr payload : List ℕ) (now : ℕ) (f : Forwarder)
    → (on_datagram addr payload now f).1.sessions
      ≡ store addr (record { addr = addr; last_seen = now }) f.sessions
unfolding on_datagram
sessions-on_datagram addr payload now f = ground arith

sessions-on_frame : (f : Forwarder) → (on_frame f).1.sessions ≡ f.sessions
unfolding on_frame
sessions-on_frame f = ground arith

pub step-NoEmptyKey :
    (e : Event) (f : Forwarder) → HasAddress e → NoEmptyKey f → NoEmptyKey (step e f)
unfolding step
step-NoEmptyKey (datagram addr payload now) f h n = ground (
  arith,
  sessions-on_datagram addr payload now f,
  find-store addr [] (record { addr = addr; last_seen = now }) f.sessions,
  bytes_eq→eq addr [],
)
step-NoEmptyKey frame f h n = ground (arith, sessions-on_frame f)
step-NoEmptyKey (tick now) f h n = unfold on_tick in find-delete_if-none _ [] f.sessions n

run-NoEmptyKey :
    (es : List Event) (f : Forwarder) → All HasAddress es → NoEmptyKey f → NoEmptyKey (run es f)
unfolding run
run-NoEmptyKey [] f h n = n
run-NoEmptyKey (e ∷ es) f h n = run-NoEmptyKey es (step e f) h.1 (step-NoEmptyKey e f h.0 n)

pub client_frame-eq : (payload : List ℕ) → client_frame payload ≡ server_frame [] payload
unfolding client_frame server_frame
client_frame-eq payload = refl

-- Whatever happened since `ServerUDP` started without sessions, if each datagram came from an
-- address with a text, the server reads a reply that `ClientUDP` framed, of fewer than 65536
-- bytes, off the open stream, and sends nothing.
pub reply_lost :
    (es : List Event) (start : Forwarder) (reply rest : List ℕ)
    → start.sessions ≡ []
    → All HasAddress es
    → length reply < 65536
    → (run es start).stream.closed ≡ false
    → (run es start).stream.incoming ≡ client_frame reply ++ rest
    → ((on_frame (run es start)).1.sent ≡ (run es start).sent)
      × ((on_frame (run es start)).1.stream.incoming ≡ rest)
      × ((on_frame (run es start)).0 ≡ ok tt)
unfolding on_frame
reply_lost es start reply rest fresh has p o e =
    let f = run es start in
    let none_there : NoEmptyKey f = run-NoEmptyKey es start has (rw fresh (unfold find in refl)) in
    let read =
      read_server_frame_ok [] reply rest f.stream (omega arith) p o
        (rw (client_frame-eq reply) at e) in
    (
      ground (arith, read, none_there),
      ground (arith, read, none_there),
      ground (arith, read, none_there),
    )
