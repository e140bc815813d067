-- ===== src/HttpProxy/Tunnel/Delivers.antt =====
-- What a client of a tunnel and its target get, from the request to the end.
use rathole_pro.Prelude.{
  ℕ, ◌≤◌, ◌≡◌, ◌∙◌, refl, ap, true, false, List, ◌++◌, some, length, All, arith,
}
use rathole_pro.Prelude.Text.{bytes, to_upper}
use rathole_pro.Prelude.Exec.{Result, ok}
use rathole_pro.Net.{Conn}
use rathole_pro.Relay.{Event, Relaying, into_a, into_b, relay}
use rathole_pro.Relay.Closing.{relay-ClosesBoth}
use rathole_pro.Relay.Order.{received}
use rathole_pro.Relay.Ends.{no_failure, relay_delivers}
use rathole_pro.HttpProxy.{RequestLine, established}
use rathole_pro.HttpProxy.Answers.{Sends, handle_http_proxy-tunnels}
use rathole_pro.HttpProxy.Tunnel.{Client, tunnel_start, tunnel, proxied}

module _ (dial : List ℕ → Result Conn) (c : Client) (lines : List (List ℕ)) (rest : List ℕ)
    (q : RequestLine) (s : Sends c.conn lines rest q) where
  -- A tunnel that is over: what the target was sent, and what the client was.
  pub record Tunnelled (es : List Event) (target : Conn) : Type 0 where
    pub client : Conn
    pub over : Relaying
    pub lost : List ℕ
    pub kept : List ℕ
    pub runs : (proxied dial es c).1 ≡ some over
    pub behind_head : rest ≡ lost ++ kept
    pub to_target :
        over.b.outgoing
        ≡ (target.outgoing ++ kept) ++ received into_b es (tunnel_start client target)
    pub to_client :
        over.a.outgoing
        ≡ ((c.conn.outgoing ++ established) ++ target.incoming)
          ++ received into_a es (tunnel_start client target)
    pub both_closed : (over.a.closed ≡ true) × (over.b.closed ≡ true)

  -- A client on an open connection with room for the answer that sends a whole head, whose request
  -- line parses and has the method `CONNECT`, and something behind it, to a target that can be
  -- reached, and copies on which nothing fails and which are both done, whatever the reader took:
  -- the target was sent a last part of what stood behind the head, without the bytes in front of that part, and then what came
  -- from the client; the client was sent the answer and then what came from the target, each in
  -- order; and both connections are closed.
  pub proxied-Tunnelled :
      (es : List Event) (target : Conn)
      → to_upper q.method ≡ bytes "CONNECT"
      → dial q.target ≡ ok target
      → length established ≤ c.conn.room
      → All (λ e. no_failure e ≡ true) es
      → ((client : Conn) (lost : List ℕ)
          → rest ≡ lost ++ client.incoming
          → client.closed ≡ false
          → let over = relay es (tunnel_start client target) in
            (over.into_a_done ≡ true) × (over.into_b_done ≡ true))
      → Tunnelled es target
  unfolding proxied tunnel
  proxied-Tunnelled es target is_connect up room fine ends_so =
      let (client, lost, out, sent, splits, is_open) =
        handle_http_proxy-tunnels dial c.ahead c.conn lines rest q s target is_connect up room in
      let start = tunnel_start client target in
      let (a_done, b_done) = ends_so client lost splits is_open in
      let to_a = relay_delivers into_a es start fine refl a_done in
      record {
        client = client;
        over = relay es start;
        lost = lost;
        kept = client.incoming;
        runs = rw out refl;
        behind_head = splits;
        to_target = relay_delivers into_b es start fine refl b_done;
        to_client =
            to_a ∙ ap (λ (l : List ℕ). (l ++ target.incoming) ++ received into_a es start) sent;
        both_closed =
            relay-ClosesBoth es start (λ (p : false ≡ true) q. ground (arith)) a_done b_done;
      }
