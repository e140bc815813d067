-- ===== src/Transport/WebSocket.antt =====
-- go-core/transport/websocket.go: the HTTP upgrade in front of the frames.
-- `base64` and `sha1` are the standard library's, `key_bytes` and `random` what `crypto/rand`
-- gives, and `ahead` how much the buffered reader takes beyond a line. Texts are ASCII.
pub mod Headers
pub mod Upgrade
pub mod Meeting
use rathole_pro.Prelude.{
  ℕ, ◌≡◌, String, Bool, true, false, not, List, [], ◌∷◌, ◌++◌, Option, none, some, str_eq,
  if◌then◌else◌,
}
use rathole_pro.Prelude.Text.{bytes, is_empty, trim_space, to_lower, has_prefix, contains, cut}
use rathole_pro.Prelude.Exec.{Result, ok, err, errorf, Exec, fail_if, wrap, ◌>>=◌, ◌>>◌}
use rathole_pro.Net.{Conn, write}
use rathole_pro.Config.{WebSocketConfig}
use rathole_pro.Bufio.{Reader, new_reader, read_line}
use rathole_pro.Bufio.Heads.{whole_head}
use rathole_pro.Transport.WsFrame.{WsConn, new_ws_conn}

unfoldable pub upgrade_path : Option WebSocketConfig → String
upgrade_path none = "/tunnel"
upgrade_path (some cfg) = if str_eq cfg.path "" then "/tunnel" else cfg.path

-- What `WSClientUpgrade` sends.
unfoldable pub upgrade_request : (path host key : List ℕ) → List ℕ
upgrade_request path host key =
    bytes "GET "
    ++ (path
        ++ (bytes " HTTP/1.1\r\nHost: "
            ++ (host
                ++ (bytes "\r\nUpgrade: websocket\r\nConnection: Upgrade\r\nSec-WebSocket-Key: "
                    ++ (key ++ bytes "\r\nSec-WebSocket-Version: 13\r\n\r\n")))))

-- What `WSServerUpgrade` sends.
unfoldable pub upgrade_response : (accept : List ℕ) → List ℕ
upgrade_response accept =
    bytes
      "HTTP/1.1 101 Switching Protocols\r\nUpgrade: websocket\r\nConnection: Upgrade\r\nSec-WebSocket-Accept: "
    ++ (accept ++ bytes "\r\n\r\n")

abbrev key_value : List ℕ → Option (List ℕ × List ℕ) → List ℕ
key_value key none = key
key_value key (some (name, value)) = trim_space value

-- What a header line does to `wsKey`.
unfoldable pub header_key : List ℕ → List ℕ → List ℕ
header_key key line =
    let trimmed = trim_space line in
    if has_prefix (to_lower trimmed) (bytes "sec-websocket-key")
    then key_value key (cut b':' trimmed)
    else key

abbrev on_conn : {A : Type 0} → Exec Conn A → Exec Reader A
on_conn x r = let s = x r.conn in (s.0, record r { conn = s.1 })

-- A buffered reader for the length of an upgrade; the connection goes on without it.
abbrev pub with_reader : {A : Type 0} → (ℕ → ℕ) → Exec Reader A → Exec Conn A
with_reader ahead x conn = let r = x (new_reader conn ahead) in (r.0, r.1.conn)

abbrev pub guid : List ℕ
guid = bytes "258EAFA5-E914-47DA-95CA-C5AB0DC85B11"

module _ (base64 sha1 : List ℕ → List ℕ) (random ahead : ℕ → ℕ) where
  -- `WSClientUpgrade`
  unfoldable pub ws_client_upgrade : List ℕ → String → Option WebSocketConfig → Exec Conn WsConn
  ws_client_upgrade key_bytes host cfg = with_reader ahead (do
    let request = upgrade_request (bytes (upgrade_path cfg)) (bytes host) (base64 key_bytes)
    wrap "ws upgrade write" (on_conn (write request))
    status ← wrap "ws upgrade read status" read_line
    fail_if (not (contains status (bytes "101"))) (errorf "ws upgrade failed")
    wrap "ws upgrade read headers" (whole_head (λ u line. u) tt)
    λ r. (ok (new_ws_conn r.conn true random), r))

  -- `WSServerUpgrade`
  unfoldable pub ws_server_upgrade : Exec Conn WsConn
  ws_server_upgrade = with_reader ahead (do
    wrap "ws accept read" read_line
    key ← wrap "ws accept read headers" (whole_head header_key [])
    fail_if (is_empty key) (errorf "missing Sec-WebSocket-Key header")
    wrap "ws accept write" (on_conn (write (upgrade_response (base64 (sha1 (key ++ guid))))))
    λ r. (ok (new_ws_conn r.conn false random), r))
