-- ===== src/Udp/Serving/Silent.antt =====
-- `ServerUDP` between its visitors and a `ClientUDP`: what it sends back to them.
use rathole_pro.Prelude.{
  ℕ, ◌<◌, ◌≡◌, refl, ap, ◌∙◌, true, false, List, [], ◌∷◌, ◌++◌, length, All, none, arith,
}
use rathole_pro.Prelude.Exec.{Result, ok, err}
use rathole_pro.Net.{Conn, read_full, write}
use rathole_pro.Udp.Sessions.{find}
use rathole_pro.Udp.{
  Forwarder, Event, datagram, frame, tick, read_server_frame, on_datagram, on_frame, on_tick, step,
  run, client_frame,
}
use rathole_pro.Udp.Frames.{read_server_frame_ok}
use rathole_pro.Udp.Replies.{NoEmptyKey, HasAddress, step-NoEmptyKey, client_frame-eq}
use rathole_pro.Udp.Serving.{Serving, ServeEvent, server_udp, new_forwarder}
use rathole_pro.Udp.Serving.Returned.{HasSource, serve-Rounds}

-- What `ClientUDP` writes for the datagrams of the local service.
abbrev pub reply_frames : List (List ℕ) → List ℕ
reply_frames [] = []
reply_frames (r ∷ rs) = client_frame r ++ reply_frames rs

-- Nothing was sent, and only replies of a `ClientUDP` are to come on the open stream.
record IsSilent (f : Forwarder) : Type 0 where
  no_key : NoEmptyKey f
  none_sent : f.sent ≡ []
  is_open : f.stream.closed ≡ false
  replies : List (List ℕ)
  small : All (λ r. length r < 65536) replies
  arrives : f.stream.incoming ≡ reply_frames replies

on_datagram_keeps :
    (addr payload : List ℕ) (now : ℕ) (f : Forwarder)
    → ((on_datagram addr payload now f).1.sent ≡ f.sent)
      × ((on_datagram addr payload now f).1.stream.closed ≡ f.stream.closed)
      × ((on_datagram addr payload now f).1.stream.incoming ≡ f.stream.incoming)
unfolding on_datagram write
on_datagram_keeps addr payload now f = (ground (arith), ground (arith), ground (arith))

on_frame_end :
    (f : Forwarder)
    → f.stream.closed ≡ false
    → f.stream.incoming ≡ []
    → ((on_frame f).1.sent ≡ f.sent)
      × ((on_frame f).1.stream.closed ≡ false)
      × ((on_frame f).1.stream.incoming ≡ [])
unfolding on_frame read_server_frame read_full
on_frame_end f o e = (ground (arith), ground (arith), ground (arith))

on_frame_reply :
    (reply rest : List ℕ) (f : Forwarder)
    → NoEmptyKey f
    → length reply < 65536
    → f.stream.closed ≡ false
    → f.stream.incoming ≡ client_frame reply ++ rest
    → ((on_frame f).1.sent ≡ f.sent)
      × ((on_frame f).1.stream.closed ≡ false)
      × ((on_frame f).1.stream.incoming ≡ rest)
unfolding on_frame
on_frame_reply reply rest f no_key p o e =
    let read =
      read_server_frame_ok [] reply rest f.stream (omega arith) p o
        (rw (client_frame-eq reply) at e) in
    (ground (arith, read, no_key), ground (arith, read, no_key), ground (arith, read, no_key))

frame-IsSilent :
    (replies : List (List ℕ)) (f : Forwarder)
    → NoEmptyKey (on_frame f).1
    → NoEmptyKey f
    → f.sent ≡ []
    → f.stream.closed ≡ false
    → All (λ r. length r < 65536) replies
    → f.stream.incoming ≡ reply_frames replies
    → IsSilent (on_frame f).1
frame-IsSilent [] f key_after key s o small e =
    let (a, b, c) = on_frame_end f o e in
    record {
      no_key = key_after;
      none_sent = a ∙ s;
      is_open = b;
      replies = [];
      small = tt;
      arrives = c;
    }
frame-IsSilent (r ∷ rs) f key_after key s o small e =
    let (a, b, c) = on_frame_reply r (reply_frames rs) f key small.0 o e in
    record {
      no_key = key_after;
      none_sent = a ∙ s;
      is_open = b;
      replies = rs;
      small = small.1;
      arrives = c;
    }

step-IsSilent : (e : Event) (f : Forwarder) → HasAddress e → IsSilent f → IsSilent (step e f)
unfolding step
step-IsSilent (datagram addr payload now) f h i =
    let (a, b, c) = on_datagram_keeps addr payload now f in
    record {
      no_key = step-NoEmptyKey (datagram addr payload now) f h i.no_key;
      none_sent = a ∙ i.none_sent;
      is_open = b ∙ i.is_open;
      replies = i.replies;
      small = i.small;
      arrives = c ∙ i.arrives;
    }
step-IsSilent frame f h i =
    frame-IsSilent i.replies f (step-NoEmptyKey frame f h i.no_key) i.no_key i.none_sent i.is_open
      i.small i.arrives
step-IsSilent (tick now) f h i = record {
  no_key = step-NoEmptyKey (tick now) f h i.no_key;
  none_sent = unfold on_tick in i.none_sent;
  is_open = unfold on_tick in i.is_open;
  replies = i.replies;
  small = i.small;
  arrives = unfold on_tick in i.arrives;
}

run-IsSilent :
    (es : List Event) (f : Forwarder) → All HasAddress es → IsSilent f → IsSilent (run es f)
unfolding run
run-IsSilent [] f h i = i
run-IsSilent (e ∷ es) f h i = run-IsSilent es (step e f) h.1 (step-IsSilent e f h.0 i)

-- Whatever comes to `ServerUDP`, if each datagram comes from an address with a text and what comes
-- on its stream, which is open, are the replies that `ClientUDP` puts in frames, of fewer than
-- 65536 bytes each: no visitor is ever sent anything.
pub server_udp_silent :
    (resolve listen : Result (Unit {0})) (es : List ServeEvent) (stream : Conn)
    (replies : List (List ℕ))
    → All HasSource es
    → All (λ r. length r < 65536) replies
    → stream.closed ≡ false
    → stream.incoming ≡ reply_frames replies
    → (server_udp resolve listen es stream).forwarder.sent ≡ []
unfolding server_udp
server_udp_silent (err e) listen es stream replies has small o arrives = refl
server_udp_silent (ok _) (err e) es stream replies has small o arrives = refl
server_udp_silent (ok _) (ok _) es stream replies has small o arrives =
    let start : Serving = record {
      forwarder = new_forwarder stream;
      reads_socket = true;
      returned = none;
    } in
    let r = serve-Rounds es start in
    let silent : IsSilent (new_forwarder stream) = record {
      no_key = unfold find in refl;
      none_sent = refl;
      is_open = o;
      replies = replies;
      small = small;
      arrives = arrives;
    } in
    ap (λ f. f.sent) r.same
    ∙ (run-IsSilent r.made (new_forwarder stream) (r.keeps has) silent).none_sent
