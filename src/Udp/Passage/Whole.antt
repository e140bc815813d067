-- ===== src/Udp/Passage/Whole.antt =====
-- Datagrams from the visitors of a `ServerUDP` through the stream to the service of a `ClientUDP`.
use mathlib.Core.Path.{subst}
use rathole_pro.Prelude.{
  ℕ, ◌≤◌, ◌≡◌, refl, ap, sym, ◌∙◌, true, false, List, [], ◌∷◌, ◌++◌, append-nil, append_assoc, none,
  length, All, arith,
}
use rathole_pro.Prelude.Exec.{Result, ok, err}
use rathole_pro.Net.{Conn}
use rathole_pro.Udp.Serving.{ServeEvent, Serving, server_udp, new_forwarder}
use rathole_pro.Udp.Local.Order.{Datagram, frames, payloads, IsSmall}
use rathole_pro.Udp.Local.Ends.{LocalServing, LocalEvent, client_udp, new_local}
use rathole_pro.Udp.Passage.{
  Framed, nothing_written, written_same, Untroubled, came, serve-Framed, IsRound,
}
use rathole_pro.Udp.Passage.Delivered.{
  Delivered, nothing_sent, sent_same, Attended, local_serve-Delivered, turns,
}

All-front : (xs ys : List Datagram) → All IsSmall (xs ++ ys) → All IsSmall xs
All-front [] ys h = tt
All-front (x ∷ xs) ys h = (h.0, All-front xs ys h.1)

front : {xs ys zs : List Datagram} → zs ≡ [] → xs ≡ ys ++ zs → xs ≡ ys
front {ys = ys} h e = e ∙ ap (λ (l : List Datagram). ys ++ l) h ∙ append-nil ys

-- What the server has written, when its socket is there.
server_udp-Framed :
    (resolve listen : Result (Unit {0})) (es : List ServeEvent) (stream : Conn)
    → stream.closed ≡ false
    → stream.outgoing ≡ []
    → length (frames (came es)) ≤ stream.room
    → Framed
        (All IsRound es × ((server_udp resolve listen es stream).returned ≡ none))
        (came es)
        []
        (server_udp resolve listen es stream).forwarder.stream.outgoing
unfolding server_udp
server_udp-Framed (err e) listen es stream o fresh room =
    nothing_written _ (came es) [] stream.outgoing fresh (λ w. ground (arith, w.1))
server_udp-Framed (ok _) (err e) es stream o fresh room =
    nothing_written _ (came es) [] stream.outgoing fresh (λ w. ground (arith, w.1))
server_udp-Framed (ok _) (ok _) es stream o fresh room =
    let start : Serving = record {
      forwarder = new_forwarder stream;
      reads_socket = true;
      returned = none;
    } in
    written_same _ (Untroubled es start) (came es) [] stream.outgoing _ fresh
      (λ w. (w.0, refl, w.1)) (serve-Framed es start o room)

client_udp-Delivered :
    (resolve dial : Result (Unit {0})) (es : List LocalEvent) (ds : List Datagram) (c : Conn)
    → All IsSmall ds
    → c.closed ≡ false
    → c.incoming ≡ frames ds
    → Delivered
        ((length ds ≤ turns es) × ((client_udp resolve dial es c).returned ≡ none))
        ds
        []
        (client_udp resolve dial es c).forwarder.to_service
unfolding client_udp
client_udp-Delivered (err e) dial es ds c small o arrives =
    nothing_sent _ ds [] [] refl (λ w. ground (arith, w.1))
client_udp-Delivered (ok _) (err e) es ds c small o arrives =
    nothing_sent _ ds [] [] refl (λ w. ground (arith, w.1))
client_udp-Delivered (ok _) (ok _) es ds c small o arrives =
    let start : LocalServing = record {
      forwarder = new_local c;
      reads_stream = true;
      returned = none;
    } in
    sent_same _ (Attended ds es start) ds [] [] _ refl (λ w. (w.0, refl, w.1))
      (local_serve-Delivered es ds start small o arrives)

-- The first of the events' datagrams, in order, are what the local service was sent.
abbrev pub IsPassedOn : List Datagram → List (List ℕ) → Type 0
IsPassedOn ds sent =
    (taken : List Datagram) × (others : List Datagram) × (ds ≡ taken ++ others)
    × (sent ≡ payloads taken)

module _ (resolve listen resolve_local dial : Result (Unit {0})) (es : List ServeEvent)
    (les : List LocalEvent) (stream c : Conn) where
  abbrev pub served : Serving
  served = server_udp resolve listen es stream

  abbrev pub local : LocalServing
  local = client_udp resolve_local dial les c

  module _ (o : stream.closed ≡ false) (fresh : stream.outgoing ≡ [])
      (room : length (frames (came es)) ≤ stream.room) (small : All IsSmall (came es))
      (co : c.closed ≡ false) (arrives : c.incoming ≡ served.forwarder.stream.outgoing) where
    abbrev written :
        Framed
          (All IsRound es × (served.returned ≡ none))
          (came es)
          []
          served.forwarder.stream.outgoing
    written = server_udp-Framed resolve listen es stream o fresh room

    delivered :
        Delivered
          ((length written.taken ≤ turns les) × (local.returned ≡ none))
          written.taken
          []
          local.forwarder.to_service
    delivered =
        client_udp-Delivered resolve_local dial les written.taken c
          (All-front written.taken written.others (subst (All IsSmall) written.splits small)) co
          (arrives ∙ written.written)

    -- Whatever datagrams, frames, ticks and errors come to `ServerUDP`, and whatever frames,
    -- replies and errors to `ClientUDP`, on open streams, where the server's is new and has room
    -- for the frames, the client's gives what the server has written, and addresses and datagrams
    -- are below 65536 bytes: what the local service is sent are the payloads of the first of the
    -- datagrams that came to the server, in order.
    pub client_udp-IsPassedOn : IsPassedOn (came es) local.forwarder.to_service
    client_udp-IsPassedOn = (
      delivered.taken,
      delivered.others ++ written.others,
      written.splits
          ∙ ap (λ (l : List Datagram). l ++ written.others) delivered.splits
          ∙ append_assoc delivered.taken delivered.others written.others,
      delivered.sent,
    )

    -- On open streams, where the server's is new and has room for the frames, the client's gives
    -- what the server has written, and addresses and datagrams are below 65536 bytes: if the
    -- server's socket has no error, the client's goroutine has as many turns as there are
    -- datagrams, and neither end has returned, the local service is sent the payload of each of
    -- the datagrams that came to `ServerUDP`, in order and nothing else, in whatever order frames,
    -- ticks and replies come between them.
    pub client_udp-server_udp :
        All IsRound es
        → length (came es) ≤ turns les
        → served.returned ≡ none
        → local.returned ≡ none
        → local.forwarder.to_service ≡ payloads (came es)
    client_udp-server_udp rounds enough served_on local_on =
        let e : came es ≡ written.taken =
          front (written.all_taken (rounds, served_on)) written.splits in
        let d : written.taken ≡ delivered.taken =
          front (delivered.all_taken (subst (λ l. length l ≤ turns les) e enough, local_on))
            delivered.splits in
        delivered.sent ∙ ap payloads (sym (e ∙ d))
