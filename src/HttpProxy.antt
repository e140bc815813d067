-- ===== src/HttpProxy.antt =====
-- go-core/httpproxy/httpproxy.go: the parsing of a request, and what becomes of it.
-- `dial` is what `net.DialTimeout` gives for an address. The deadline of a read is the end of what
-- the connection receives. The two copies of a tunnel and the accept loop are in the module Tunnel.
pub mod Requests
pub mod Answers
pub mod Tunnel
use rathole_pro.Prelude.{
  ℕ, zero, suc, ◌+◌, ◌≡◌, Bool, true, false, not, List, [], ◌∷◌, ◌++◌, Option, none, some, ◌==◌,
  ◌&&◌, if◌then◌else◌, drop,
}
use rathole_pro.Prelude.Text.{
  bytes, is_empty, trim_space, to_lower, to_upper, has_prefix, contains, cut, bytes_eq,
}
use rathole_pro.Prelude.Exec.{Err, errorf, wrapf, Result, ok, err}
use rathole_pro.Net.{Conn, write, close}
use rathole_pro.Bufio.{Reader, new_reader}
use rathole_pro.Bufio.Heads.{whole_head, crlf}

pub record RequestLine : Type 0 where
  pub method : List ℕ
  pub target : List ℕ
  pub version : List ℕ

-- `strings.SplitN(s, "\r\n", 2)[0]`
unfoldable pub before_crlf : List ℕ → List ℕ
before_crlf [] = []
before_crlf (c ∷ s) = let rest = before_crlf s in if has_prefix (c ∷ s) crlf then [] else c ∷ rest

-- `strings.SplitN(line, " ", 3)`, which has to have three parts.
unfoldable pub parse_request_line : List ℕ → Result RequestLine
parse_request_line s = elim (cut b' ' (before_crlf s)) [
  | none ↦ err (errorf "invalid request line")
  | some (method, rest) ↦ elim (cut b' ' rest) [
    | none ↦ err (errorf "invalid request line")
    | some (target, version) ↦ ok (record { method = method; target = target; version = version })
  ]
]

abbrev on_first : ℕ → List (List ℕ) → List (List ℕ)
on_first c [] = []
on_first c (line ∷ lines) = (c ∷ line) ∷ lines

-- `strings.Split(s, "\r\n")`
unfoldable pub split_crlf : List ℕ → List (List ℕ)
split_crlf [] = [] ∷ []
split_crlf (c ∷ []) = (c ∷ []) ∷ []
split_crlf (c ∷ d ∷ s) =
    let next = [] ∷ split_crlf s in
    let same = on_first c (split_crlf (d ∷ s)) in if c == b'\r' && d == b'\n' then next else same

-- The loop over the lines.
unfoldable pub find_host : List (List ℕ) → List ℕ
find_host [] = []
find_host (line ∷ lines) =
    let later = find_host lines in
    if has_prefix (to_lower line) (bytes "host:") then trim_space (drop 5 line) else later

unfoldable pub extract_host : List ℕ → List ℕ
extract_host s = find_host (split_crlf s)

abbrev pub bad_gateway : List ℕ
bad_gateway = bytes "HTTP/1.1 502 Bad Gateway\r\n\r\n"

abbrev pub bad_request : List ℕ
bad_request = bytes "HTTP/1.1 400 Bad Request\r\n\r\n"

abbrev pub established : List ℕ
established = bytes "HTTP/1.1 200 Connection Established\r\n\r\n"

-- What became of a client, with the connections as they are when it is decided.
pub data Outcome : Type 0 where
  dropped no_host forwarded : Outcome
  connect_failed forward_failed client_gone : Err → Outcome
  tunnels : Conn → Conn → Outcome

pub record Handled : Type 0 where
  pub outcome : Outcome
  pub client : Conn
  pub backend : Option Conn

-- A write whose error is ignored.
abbrev pub send : List ℕ → Conn → Conn
send s c = (write s c).1

-- `host += ":80"` where the host has no port.
unfoldable pub with_port : List ℕ → List ℕ
with_port host = if contains host (bytes ":") then host else host ++ bytes ":80"

module _ (dial : List ℕ → Result Conn) where
  -- `HandleCONNECT`, up to the relay.
  unfoldable pub handle_connect : List ℕ → Conn → Handled
  handle_connect target client = elim (dial target) [
    | err e ↦ record {
      outcome = connect_failed e;
      client = (close (send bad_gateway client)).1;
      backend = none;
    }
    | ok backend ↦
        let w = write established client in
        elim w.0 [
          | err e ↦ record {
            outcome = client_gone e;
            client = (close w.1).1;
            backend = some (close backend).1;
          }
          | ok _ ↦ record { outcome = tunnels w.1 backend; client = w.1; backend = some backend }
        ]
  ]

  -- `ForwardRequest`: the response is what the backend sends until a read fails.
  unfoldable pub forward_request : List ℕ → List ℕ → Result (List ℕ) × Option Conn
  forward_request request address = elim (dial address) [
    | err e ↦ (err (wrapf "connect backend" e), none)
    | ok backend ↦
        let w = write request backend in
        elim w.0 [
          | err e ↦ (err (wrapf "write to backend" e), some (close w.1).1)
          | ok _ ↦ (ok w.1.incoming, some (close (record w.1 { incoming = [] })).1)
        ]
  ]

  -- The last branch of `handleHTTPProxy`.
  unfoldable pub handle_forward : List ℕ → Conn → Handled
  handle_forward request client =
      let host = extract_host request in
      let f = forward_request request (with_port host) in
      if is_empty host
      then record {
        outcome = no_host;
        client = (close (send bad_request client)).1;
        backend = none;
      }
      else elim f.0 [
        | err e ↦ record {
          outcome = forward_failed e;
          client = (close (send bad_gateway client)).1;
          backend = f.1;
        }
        | ok response ↦ record {
          outcome = forwarded;
          client = (close (send response client)).1;
          backend = f.1;
        }
      ]

  -- `handleHTTPProxy`
  unfoldable pub handle_http_proxy : (ahead : ℕ → ℕ) → Conn → Handled
  handle_http_proxy ahead conn =
      let r = whole_head (λ request line. request ++ line) [] (new_reader conn ahead) in
      elim r.0 [
        | err e ↦ record { outcome = dropped; client = (close r.1.conn).1; backend = none }
        | ok request ↦ elim (parse_request_line request) [
          | err e ↦ record { outcome = dropped; client = (close r.1.conn).1; backend = none }
          | ok q ↦
              if bytes_eq (to_upper q.method) (bytes "CONNECT")
              then handle_connect q.target r.1.conn
              else handle_forward request r.1.conn
        ]
      ]
