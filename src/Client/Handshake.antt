-- ===== src/Client/Handshake.antt =====
-- The client's `authenticate` against the server's `handleClientConn`, over what the transports make
-- of a connection.
use rathole_pro.Prelude.{ℕ, ◌≡◌, ◌≢◌, ap, ◌∙◌, String, Bool, true, false, List, ◌++◌}
use rathole_pro.Prelude.Exec.{Result, ok, err, errorf, wrapf}
use rathole_pro.Net.{Conn}
use rathole_pro.Config.{service_type}
use rathole_pro.Protocol.{Json, Encodes}
use rathole_pro.Transport.Stream.{Stream, raw_of, stream_wire}
use rathole_pro.Transport.Stream.Writes.{left, stream_close_lem}
use rathole_pro.Transport.Stream.Messages.{
  message_bytes, message_sent, Ends, asks, answers, asks_outgoing, answers_outgoing,
}
use rathole_pro.Server.Auth.{Pools, bad_token, joined, auth_response, handle_client_conn}
use rathole_pro.Server.Auth.Admission.{Joins, HasPool}
use rathole_pro.Client.{authenticate}
use rathole_pro.Client.Meeting.{
  Meeting, client_hash, server_hash, auth_message, Exchanged, accepts_lem, rejects_lem,
}

-- The end of a connection that is open, receives these bytes and has room for a message.
abbrev pub end_of : List ℕ → List ℕ → ℕ → Conn
end_of incoming outgoing room = record {
  incoming = incoming;
  outgoing = outgoing;
  room = room;
  closed = false;
}

module _ (json : Json) (hash_token : String → String) (yamux_server : Stream → Result ℕ)
    (m : Meeting json hash_token) {client server : Stream}
    {payload server_rest client_rest : List ℕ}
    (e : Ends client server m.auth_payload payload server_rest client_rest) where
  open m use {cc, sc, name, client_svc, server_svc, auth_payload}

  -- Both ends have sent their messages, and no more.
  abbrev pub BothSent : Stream → Stream → Type 0
  BothSent c s =
      ((raw_of c).outgoing ≡ (raw_of client).outgoing ++ message_bytes client auth_payload)
      × ((raw_of s).outgoing ≡ (raw_of server).outgoing ++ message_bytes server payload)

  exchanged :
      (success : Bool) (message : String)
      → Encodes json (auth_response success message) payload
      → Exchanged m success message client
          (message_sent client auth_payload)
          (left (message_sent client auth_payload) client_rest)
          server
          (left server server_rest)
          (message_sent (left server server_rest) payload)
  exchanged success message enc = record {
    client_sends = (asks json e (auth_message m) m.encodes_auth).0;
    server_gets = (asks json e (auth_message m) m.encodes_auth).1;
    server_sends = (answers json e (auth_response success message) enc).0;
    client_gets = (answers json e (auth_response success message) enc).1;
  }

  -- Two streams of the same transport, bare, noise or ws, on open connections with room for the
  -- messages, each of which receives first what the other end writes of its message, of some bytes
  -- and no more than the transport takes in one write; two tokens whose hashes differ: the server
  -- answers `bad token`, closes the connection and leaves its pools alone, `authenticate` fails
  -- with that answer, and each end has sent its message and no more.
  pub handshake_rejects :
      (pools : Pools)
      → client_hash m ≢ server_hash m
      → Encodes json (auth_response false "bad token") payload
      → let served = handle_client_conn json hash_token yamux_server sc server pools in
        let auth = authenticate json hash_token name client_svc cc client in
        (served.outcome ≡ bad_token)
        × (served.pools ≡ pools)
        × ((raw_of served.conn).closed ≡ true)
        × BothSent auth.1 served.conn
        × (auth.0 ≡ err (wrapf "auth failed" (errorf "bad token")))
  handshake_rejects pools differ enc =
      let (s, a) =
        rejects_lem json hash_token yamux_server m client _ _ server _ _ pools differ
          (exchanged false "bad token" enc) in
      let (shut, kept) = stream_close_lem (message_sent (left server server_rest) payload) in
      (
        ap (λ v. v.outcome) s,
        ap (λ v. v.pools) s,
        ap (λ v. (raw_of v.conn).closed) s ∙ shut,
        (
          ap (λ v. (raw_of v.1).outgoing) a ∙ asks_outgoing json e,
          ap (λ v. (raw_of v.conn).outgoing) s ∙ kept ∙ answers_outgoing json e,
        ),
        ap (λ v. v.0) a,
      )

  -- Two streams of the same transport, bare, noise or ws, on open connections with room for the
  -- messages, each of which receives first what the other end writes of its message, of some bytes
  -- and no more than the transport takes in one write; two tokens of the same hash, and a pool for
  -- the service: if yamux gives a session, the server answers `OK`, leaves the stream as yamux got
  -- it, and the session joins the pool of the service; `authenticate` succeeds, and each end has
  -- sent its message and no more.
  pub handshake_accepts :
      (session : ℕ) (pools : Pools)
      → client_hash m ≡ server_hash m
      → Encodes json (auth_response true "OK") payload
      → HasPool name (service_type server_svc) pools
      → yamux_server (message_sent (left server server_rest) payload) ≡ ok session
      → let served = handle_client_conn json hash_token yamux_server sc server pools in
        let auth = authenticate json hash_token name client_svc cc client in
        (served.outcome ≡ joined session)
        × Joins name (service_type server_svc) session pools served.pools
        × (served.conn ≡ message_sent (left server server_rest) payload)
        × BothSent auth.1 served.conn
        × (auth.0 ≡ ok tt)
  handshake_accepts session pools same enc has up =
      let (o, j, k, a) =
        accepts_lem json hash_token yamux_server m client _ _ server _ _ session pools same has up
          (exchanged true "OK" enc) in
      (
        o,
        j,
        k,
        (
          ap (λ v. (raw_of v.1).outgoing) a ∙ asks_outgoing json e,
          ap (λ v. (raw_of v).outgoing) k ∙ answers_outgoing json e,
        ),
        ap (λ v. v.0) a,
      )
