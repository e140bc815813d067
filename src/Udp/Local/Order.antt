-- ===== src/Udp/Local/Order.antt =====
-- Datagrams from the visitors' side to the local service, through both ends.
use rathole_pro.Prelude.{
  ℕ, zero, suc, ◌-◌, ◌≤◌, ◌<◌, ◌≡◌, refl, ap, sym, ◌∙◌, false, List, [], ◌∷◌, ◌++◌, append_assoc,
  append-nil, length, length-append, All, arith,
}
use rathole_pro.Prelude.Exec.{ok, err, eof, bind_ok}
use rathole_pro.Net.{Conn, read_full}
use rathole_pro.Net.Laws.{write_ok}
use rathole_pro.Udp.{
  Forwarder, server_frame, on_datagram, read_client_frame, Event, datagram, step, run,
}
use rathole_pro.Udp.Frames.{read_client_frame_ok}
use rathole_pro.Udp.Local.{LocalForwarder, local_round, local_loop}

pub record Datagram : Type 0 where
  pub addr : List ℕ
  pub payload : List ℕ
  pub at_time : ℕ

abbrev event_of : Datagram → Event
event_of d = datagram d.addr d.payload d.at_time

abbrev pub arrivals : List Datagram → List Event
arrivals [] = []
arrivals (d ∷ ds) = event_of d ∷ arrivals ds

abbrev pub payloads : List Datagram → List (List ℕ)
payloads [] = []
payloads (d ∷ ds) = d.payload ∷ payloads ds

abbrev pub frames : List Datagram → List ℕ
frames [] = []
frames (d ∷ ds) = server_frame d.addr d.payload ++ frames ds

-- Address and payload have a length of two bytes.
abbrev pub IsSmall : Datagram → Type 0
IsSmall d = (length d.addr < 65536) × (length d.payload < 65536)

pub stream-on_datagram :
    (addr payload : List ℕ) (now : ℕ) (f : Forwarder)
    → f.stream.closed ≡ false
    → length (server_frame addr payload) ≤ f.stream.room
    → (on_datagram addr payload now f).1.stream ≡ record f.stream {
      outgoing = f.stream.outgoing ++ server_frame addr payload;
      room = f.stream.room - length (server_frame addr payload);
    }
unfolding on_datagram
stream-on_datagram addr payload now f o room =
    ground (arith, write_ok (server_frame addr payload) f.stream o room)

server_sends :
    (ds : List Datagram) (f : Forwarder)
    → f.stream.closed ≡ false
    → length (frames ds) ≤ f.stream.room
    → (run (arrivals ds) f).stream.outgoing ≡ f.stream.outgoing ++ frames ds
unfolding run step
server_sends [] f o room = sym (append-nil f.stream.outgoing)
server_sends (d ∷ ds) f o room =
    let out = server_frame d.addr d.payload in
    let split = length-append out (frames ds) in
    let same = stream-on_datagram d.addr d.payload d.at_time f o (omega (arith, split)) in
    server_sends ds (on_datagram d.addr d.payload d.at_time f).1
      (ap (λ (c : Conn). c.closed) same ∙ o)
      (omega (arith, split, ap (λ (c : Conn). c.room) same, room))
    ∙ ap (λ (c : Conn). c.outgoing ++ frames ds) same
    ∙ append_assoc f.stream.outgoing out (frames ds)

pub no_frame :
    (c : LocalForwarder)
    → c.stream.closed ≡ false
    → c.stream.incoming ≡ []
    → local_round c ≡ (err eof, record c { stream = record c.stream { incoming = [] } })
unfolding local_round read_client_frame read_full
no_frame c o e = ground (arith)

pub round_ok :
    (d : Datagram) (rest : List ℕ) (c : LocalForwarder)
    → IsSmall d
    → c.stream.closed ≡ false
    → c.stream.incoming ≡ server_frame d.addr d.payload ++ rest
    → local_round c ≡ (
      ok tt,
      record c {
        stream = record c.stream { incoming = rest };
        to_service = c.to_service ++ d.payload ∷ [];
      },
    )
unfolding local_round
round_ok d rest c small o e =
    ground (arith, read_client_frame_ok d.addr d.payload rest c.stream small.0 small.1 o e)

local_gets :
    (ds : List Datagram) (fuel : ℕ) (c : LocalForwarder)
    → length ds < fuel
    → All IsSmall ds
    → c.stream.closed ≡ false
    → c.stream.incoming ≡ frames ds
    → local_loop fuel c ≡ (
      err eof,
      record c {
        stream = record c.stream { incoming = [] };
        to_service = c.to_service ++ payloads ds;
      },
    )
unfolding local_loop
local_gets ds zero c enough small o e = ground arith
local_gets [] (suc fuel) c enough small o e =
    ground (arith, no_frame c o e, append-nil c.to_service)
local_gets (d ∷ ds) (suc fuel) c enough small o e =
    let (small_d, small_ds) = small in
    let c1 : LocalForwarder = record c {
      stream = record c.stream { incoming = frames ds };
      to_service = c.to_service ++ d.payload ∷ [];
    } in
    bind_ok local_round (λ _. local_loop fuel) c c1 tt (round_ok d (frames ds) c small_d o e)
    ∙ local_gets ds fuel c1 (omega arith) small_ds o refl
    ∙ ap (λ l. (err eof, record c { stream = record c.stream { incoming = [] }; to_service = l }))
        (append_assoc c.to_service (d.payload ∷ []) (payloads ds))

-- On an open stream with room for all its frames, the server puts the datagrams of its visitors in
-- frames, and when the client's stream, which is open, gives what the server has written on a
-- stream that was new and then ends, the loop of `ClientUDP` sends the local service each of the
-- datagrams, in order and nothing else, before it ends with the stream, if addresses and
-- datagrams are below 65536 bytes and the loop has more rounds than there are datagrams.
pub local_loop-run :
    (ds : List Datagram) (f : Forwarder) (c : LocalForwarder) (fuel : ℕ)
    → f.stream.closed ≡ false
    → f.stream.outgoing ≡ []
    → length (frames ds) ≤ f.stream.room
    → All IsSmall ds
    → c.stream.closed ≡ false
    → c.stream.incoming ≡ (run (arrivals ds) f).stream.outgoing
    → length ds < fuel
    → local_loop fuel c ≡ (
      err eof,
      record c {
        stream = record c.stream { incoming = [] };
        to_service = c.to_service ++ payloads ds;
      },
    )
local_loop-run ds f c fuel o fresh room small co arrives enough =
    local_gets ds fuel c enough small co
      (arrives ∙ server_sends ds f o room ∙ ap (λ (l : List ℕ). l ++ frames ds) fresh)
