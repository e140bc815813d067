-- ===== src/Runs/Proxy.antt =====
-- A proxy client with a body behind its request, and the upgrade of one connection.
use rathole_pro.Prelude.{
  ℕ, ◌≡◌, refl, true, false, List, [], ◌∷◌, ◌++◌, some, ap, length, length-append, drop_all, arith,
}
use rathole_pro.Prelude.Text.{bytes, cut, trim_space, trim_left, trim_right, is_space}
use rathole_pro.Prelude.Exec.{ok, Result}
use rathole_pro.Net.{Conn}
use rathole_pro.Bufio.Heads.{head_of}
use rathole_pro.HttpProxy.{
  RequestLine, parse_request_line, before_crlf, extract_host, split_crlf, find_host, forwarded,
  handle_http_proxy,
}
use rathole_pro.HttpProxy.Answers.{Sends, handle_http_proxy-forwards}
use rathole_pro.Relay.{
  Event, arrives, ends, moves, finishes, into_a, into_b, relay, relay_step, move, end_copy,
  close_write, close_end,
}
use rathole_pro.HttpProxy.Tunnel.{Client, tunnel_start}
use rathole_pro.HttpProxy.Tunnel.Delivers.{Tunnelled, proxied-Tunnelled}

abbrev conn_of : List ℕ → ℕ → Conn
conn_of incoming room = record { incoming = incoming; outgoing = []; room = room; closed = false }

abbrev lines : List (List ℕ)
lines = bytes "POST /a HTTP/1.1" ∷ bytes "Host: a" ∷ []

abbrev client : Conn
client = conn_of (head_of lines ++ bytes "body") 100

abbrev post : RequestLine
post = record { method = bytes "POST"; target = bytes "/a"; version = bytes "HTTP/1.1" }

client-Sends : Sends client lines (bytes "body") post
unfolding parse_request_line before_crlf cut trim_space trim_left trim_right is_space
client-Sends = record {
  is_open = refl;
  arrives = refl;
  sound = ((omega arith, refl), ((omega arith, refl), tt));
  parses = refl;
}

abbrev ahead : ℕ → ℕ
ahead i = 2

abbrev backend : Conn
backend = conn_of (bytes "HTTP/1.1 200 OK") 100

abbrev dial : List ℕ → Result Conn
dial address = ok backend

host_found : extract_host (head_of lines) ≡ bytes "a"
unfolding extract_host split_crlf find_host trim_space trim_left trim_right is_space
host_found = refl

handle_http_proxy-forwards_example :
    let h = handle_http_proxy dial ahead client in
    (h.outcome ≡ forwarded)
    × (h.client.outgoing ≡ bytes "HTTP/1.1 200 OK")
    × (h.client.closed ≡ true)
    × (b : Conn) × (h.backend ≡ some b)
    × (b.outgoing ≡ head_of lines)
    × (b.closed ≡ true)
handle_http_proxy-forwards_example =
    handle_http_proxy-forwards dial ahead client lines (bytes "body") post client-Sends (bytes "a")
      backend (ground arith) host_found (ground arith) refl refl (omega arith) (omega arith)

abbrev tunnel_lines : List (List ℕ)
tunnel_lines = bytes "connect b:443 HTTP/1.1" ∷ []

abbrev tunnel_client : Conn
tunnel_client = conn_of (head_of tunnel_lines ++ 1 ∷ 2 ∷ 3 ∷ []) 100

tunnel_client-Sends :
    Sends tunnel_client tunnel_lines
      (1 ∷ 2 ∷ 3 ∷ [])
      (record { method = bytes "connect"; target = bytes "b:443"; version = bytes "HTTP/1.1" })
unfolding parse_request_line before_crlf cut trim_space trim_left trim_right is_space
tunnel_client-Sends = record {
  is_open = refl;
  arrives = refl;
  sound = ((omega arith, refl), tt);
  parses = refl;
}

abbrev proxy_client : Client
proxy_client = record { conn = tunnel_client; ahead = ahead }

abbrev events : List Event
events =
    arrives into_b (4 ∷ [])
    ∷ ends into_b
    ∷ ends into_a
    ∷ moves into_b 10
    ∷ finishes into_b
    ∷ moves into_a 100
    ∷ finishes into_a
    ∷ []

events_end :
    (client : Conn) (lost : List ℕ)
    → 1 ∷ 2 ∷ 3 ∷ [] ≡ lost ++ client.incoming
    → client.closed ≡ false
    → let over = relay events (tunnel_start client backend) in
      (over.into_a_done ≡ true) × (over.into_b_done ≡ true)
unfolding relay relay_step move end_copy close_write close_end
events_end client lost e is_open = ground (
  arith,
  drop_all 10 (client.incoming ++ 4 ∷ []),
  length-append client.incoming (4 ∷ []),
  ap length e,
  length-append lost client.incoming,
)

proxied-Tunnelled_example :
    Tunnelled dial proxy_client tunnel_lines
      (1 ∷ 2 ∷ 3 ∷ [])
      (record { method = bytes "connect"; target = bytes "b:443"; version = bytes "HTTP/1.1" })
      tunnel_client-Sends
      events
      backend
proxied-Tunnelled_example =
    proxied-Tunnelled dial proxy_client tunnel_lines (1 ∷ 2 ∷ 3 ∷ [])
      (record { method = bytes "connect"; target = bytes "b:443"; version = bytes "HTTP/1.1" })
      tunnel_client-Sends events backend refl refl (omega arith)
      (refl, (refl, (refl, (refl, (refl, (refl, (refl, tt))))))) events_end
