-- ===== src/HttpProxy/Tunnel.antt =====
-- go-core/httpproxy/httpproxy.go: the two copies of `HandleCONNECT`, which are those of a relay
-- between the client and the target, and the accept loop of `ServeHTTPProxy`.
pub mod Delivers
use rathole_pro.Prelude.{ℕ, true, List, [], ◌∷◌, Option, none, some}
use rathole_pro.Prelude.Exec.{Err, Result, ok, err}
use rathole_pro.Net.{Conn}
use rathole_pro.Relay.{end_of, start_relay, Event, Relaying, relay}
use rathole_pro.HttpProxy.{
  Outcome, dropped, no_host, forwarded, connect_failed, forward_failed, client_gone, tunnels,
  Handled, handle_http_proxy,
}

abbrev pub tunnel_start : Conn → Conn → Relaying
tunnel_start client target = start_relay (end_of true client) (end_of true target)

-- The copies, from the answer to the client on.
unfoldable pub tunnel : List Event → Conn → Conn → Relaying
tunnel es client target = relay es (tunnel_start client target)

abbrev tunnelled : List Event → Outcome → Option Relaying
tunnelled es dropped = none
tunnelled es no_host = none
tunnelled es forwarded = none
tunnelled es (connect_failed e) = none
tunnelled es (forward_failed e) = none
tunnelled es (client_gone e) = none
tunnelled es (tunnels client target) = some (tunnel es client target)

-- A client of the proxy, and what its reader takes ahead.
pub record Client : Type 0 where
  pub conn : Conn
  pub ahead : ℕ → ℕ

module _ (dial : List ℕ → Result Conn) where
  -- `handleHTTPProxy` with the copies of a tunnel, while these events come.
  unfoldable pub proxied : List Event → Client → Handled × Option Relaying
  proxied es c = let h = handle_http_proxy dial c.ahead c.conn in (h, tunnelled es h.outcome)

  -- `ServeHTTPProxy`: the clients that come before `Accept` fails, each with its own goroutine.
  unfoldable pub serve_http_proxy :
      List (List Event × Client) → Err → List (Handled × Option Relaying) × Err
  serve_http_proxy [] e = ([], e)
  serve_http_proxy ((es, c) ∷ rest) e =
      let more = serve_http_proxy rest e in (proxied es c ∷ more.0, more.1)
