-- ===== src/Transport/WebSocket/Upgrade.antt =====
-- Both sides of the upgrade, and what the buffered readers keep of what follows it.
use rathole_pro.Prelude.{
  ℕ, zero, suc, inl, inr, if◌then◌else◌, ◌-◌, ◌≤◌, ◌<◌, ◌≡◌, ◌≢◌, refl, sym, ap, ◌∙◌, String, Bool,
  true, false, List, [], ◌∷◌, ◌++◌, append_assoc, Option, length, length-append, All, All-append,
  arith,
}
use rathole_pro.Prelude.Text.{bytes, NoSpace, Lacks, contains}
use rathole_pro.Prelude.Exec.{Result, Result-cases, ok}
use rathole_pro.Net.{Conn}
use rathole_pro.Net.Laws.{write_ok}
use rathole_pro.Config.{WebSocketConfig}
use rathole_pro.Bufio.{Reader, new_reader, unread, ReadsUpTo, read_line, read_line_ok}
use rathole_pro.Bufio.Heads.{
  whole_head, read_head, read_head_ok, over_lines, IsHeadLine, head_of, length-head_of,
}
use rathole_pro.Bufio.Exact.{read_line-IsExact, read_head-IsExact}
use rathole_pro.Transport.WsFrame.{WsConn, new_ws_conn}
use rathole_pro.Transport.WebSocket.{
  guid, ws_client_upgrade, ws_server_upgrade, upgrade_path, upgrade_request, upgrade_response,
  header_key,
}
use rathole_pro.Transport.WebSocket.Headers.{
  request_headers, upgrade_request-head_of, is_empty-ne, over_lines-request,
  request_headers-IsHeadLine,
}

-- A buffered reader that has read a first line and a head.
abbrev pub head_reader : (ℕ → ℕ) → Conn → Reader
head_reader ahead c =
    (whole_head (λ (u : Unit {0}) (line : List ℕ). u) tt (read_line (new_reader c ahead)).1).1

-- The connection when the head is read: a client has sent its own by then.
abbrev pub when_read : Conn → Bool → List ℕ → Conn
when_read conn is_client sent =
    if is_client
    then record conn { outgoing = conn.outgoing ++ sent; room = conn.room - length sent }
    else conn

-- What an upgrade ends with: a connection that frames go over, from whose stream the bytes are
-- missing that the buffered reader took behind the head and still holds.
pub record Upgraded (random ahead : ℕ → ℕ) (conn : Conn) (is_client : Bool) (sent rest : List ℕ)
    (r : Result WsConn × Conn) : Type 0 where
  pub ws : WsConn
  pub lost : List ℕ
  pub returns : r.0 ≡ ok ws
  pub side : ws.is_client ≡ is_client
  pub nothing_pending : ws.read_buf ≡ []
  pub open_still : ws.raw.closed ≡ false
  pub outgoing : ws.raw.outgoing ≡ conn.outgoing ++ sent
  pub splits : rest ≡ lost ++ ws.raw.incoming
  pub held : lost ≡ (head_reader ahead (when_read conn is_client sent)).buffered
  pub fresh : ws ≡ new_ws_conn ws.raw is_client random
  pub room_left : ws.raw.room ≡ conn.room - length sent
  pub none_lost : ((i : ℕ) → ahead i ≡ 0) → lost ≡ []

-- The first line, and then the head, through one reader.
record ReadsBoth {S : Type 0} (r : Reader) (first : List ℕ) (body : S → List ℕ → S) (s : S)
    (lines : List (List ℕ)) (rest : List ℕ) : Type 0 where
  line_read : (read_line r).0 ≡ ok (first ++ b'\n' ∷ [])
  head_read : (whole_head body s (read_line r).1).0 ≡ ok (over_lines body s lines)
  after : ReadsUpTo r (whole_head body s (read_line r).1).1 rest

reads_both :
    {S : Type 0} (r : Reader) (first : List ℕ) (body : S → List ℕ → S) (s : S)
    (lines : List (List ℕ)) (rest : List ℕ)
    → Lacks b'\n' first
    → All IsHeadLine lines
    → r.conn.closed ≡ false
    → unread r ≡ (first ++ b'\n' ∷ head_of lines) ++ rest
    → ReadsBoth r first body s lines rest
reads_both r first body s lines rest h sound o e =
    let (a, b) =
      read_line_ok first (head_of lines ++ rest) r h o
        (e ∙ append_assoc first (b'\n' ∷ head_of lines) rest) in
    let enough : length lines < suc (length (unread (read_line r).1)) =
      omega (arith, ap length b.left, length-append (head_of lines) rest, length-head_of lines) in
    let (c, d) =
      read_head_ok body (suc (length (unread (read_line r).1))) s lines rest (read_line r).1 sound
        (ground (arith, b.same_conn)) b.left enough in
    record {
      line_read = a;
      head_read = c;
      after = record { left = d.left; same_conn = ground (arith, b.same_conn, d.same_conn) };
    }

reads_exact :
    {S : Type 0} (r : Reader) (body : S → List ℕ → S) (s : S)
    → r.buffered ≡ []
    → ((i : ℕ) → r.ahead i ≡ 0)
    → (whole_head body s (read_line r).1).1.buffered ≡ []
reads_exact r body s none h =
    (read_head-IsExact body (suc (length (unread (read_line r).1))) s (read_line r).1
      (read_line-IsExact r (none, h))).0

-- The reader does not depend on what is made of the lines.
read_head_reader :
    {S T : Type 0} (body : S → List ℕ → S) (other : T → List ℕ → T) (fuel : ℕ) (s : S) (t : T)
    (r : Reader)
    → (read_head body fuel s r).1 ≡ (read_head other fuel t r).1
unfolding read_head
read_head_reader body other zero s t r = refl
read_head_reader body other (suc fuel) s t r =
    let l = read_line r in
    elim (Result-cases l.0) [
      | inr (e, failed) ↦ ground (arith)
      | inl (line, got) ↦
          let more = read_head_reader body other fuel (body s line) (other t line) l.1 in
          ground (arith, more)
    ]

module _ (base64 sha1 : List ℕ → List ℕ) (random ahead : ℕ → ℕ) where
  pub ws_server_upgrade_ok :
      (path host key rest : List ℕ) (conn : Conn)
      → Lacks b'\n' path
      → Lacks b'\n' host
      → Lacks b'\n' key
      → NoSpace key
      → key ≢ []
      → conn.closed ≡ false
      → conn.incoming ≡ upgrade_request path host key ++ rest
      → length (upgrade_response (base64 (sha1 (key ++ guid)))) ≤ conn.room
      → Upgraded random ahead conn false
          (upgrade_response (base64 (sha1 (key ++ guid))))
          rest
          (ws_server_upgrade base64 sha1 random ahead conn)
  unfolding ws_server_upgrade new_ws_conn
  ws_server_upgrade_ok path host key rest conn p h k no_space some_key o arrives room =
      let first = bytes "GET " ++ (path ++ bytes " HTTP/1.1\r") in
      let r = new_reader conn ahead in
      let both =
        reads_both r first header_key [] (request_headers host key) rest
          (ground
            (arith, All-append (λ (c : ℕ). c ≢ b'\n') path (bytes " HTTP/1.1\r") (p, omega arith)))
          (request_headers-IsHeadLine host key h k) o
          (arrives ∙ ap (λ (t : List ℕ). t ++ rest) (upgrade_request-head_of path host key)) in
      let s = (whole_head header_key [] (read_line r).1).1 in
      let response = upgrade_response (base64 (sha1 (key ++ guid))) in
      let same = both.after.same_conn in
      let ws : WsConn =
        new_ws_conn
          (record s.conn {
            outgoing = s.conn.outgoing ++ response;
            room = s.conn.room - length response;
          })
          false random in
      let run : (ws_server_upgrade base64 sha1 random ahead conn).0 ≡ ok ws = ground (
        arith,
        both.line_read,
        both.head_read,
        over_lines-request host key no_space some_key,
        is_empty-ne key some_key,
        same,
        write_ok response s.conn,
      ) in
      record {
        ws = ws;
        lost = s.buffered;
        returns = run;
        side = refl;
        nothing_pending = refl;
        open_still = ground (arith, same);
        outgoing = ground (arith, same);
        splits = sym both.after.left;
        held =
            ap (λ (t : Reader). t.buffered)
              (read_head_reader header_key (λ (u : Unit {0}) (line : List ℕ). u)
                (suc (length (unread (read_line r).1))) [] tt (read_line r).1);
        fresh = refl;
        room_left = ground (arith, same);
        none_lost = λ h. reads_exact r header_key [] refl h;
      }

  -- A client whose server answers with any status line that holds `101` somewhere, and any
  -- headers: the upgrade succeeds, whatever the accept key.
  pub ws_client_upgrade_ok :
      (key_bytes : List ℕ) (host : String) (cfg : Option WebSocketConfig) (status : List ℕ)
      (lines : List (List ℕ)) (rest : List ℕ) (conn : Conn)
      → Lacks b'\n' status
      → contains (status ++ b'\n' ∷ []) (bytes "101") ≡ true
      → All IsHeadLine lines
      → conn.closed ≡ false
      → conn.incoming ≡ (status ++ b'\n' ∷ head_of lines) ++ rest
      → let request = upgrade_request (bytes (upgrade_path cfg)) (bytes host) (base64 key_bytes) in
        length request ≤ conn.room
        → Upgraded random ahead conn true request rest
            (ws_client_upgrade base64 sha1 random ahead key_bytes host cfg conn)
  unfolding ws_client_upgrade new_ws_conn
  ws_client_upgrade_ok key_bytes host cfg status lines rest conn h good sound o arrives room =
      let request = upgrade_request (bytes (upgrade_path cfg)) (bytes host) (base64 key_bytes) in
      let sent : Conn = record conn {
        outgoing = conn.outgoing ++ request;
        room = conn.room - length request;
      } in
      let r = new_reader sent ahead in
      let both =
        reads_both r status (λ (u : Unit {0}) (line : List ℕ). u) tt lines rest h sound o arrives in
      let s = (whole_head (λ (u : Unit {0}) (line : List ℕ). u) tt (read_line r).1).1 in
      let same = both.after.same_conn in
      let run : (ws_client_upgrade base64 sha1 random ahead key_bytes host cfg conn).0
          ≡ ok (new_ws_conn s.conn true random) =
        ground (arith, write_ok request conn, both.line_read, both.head_read, good) in
      record {
        ws = new_ws_conn s.conn true random;
        lost = s.buffered;
        returns = run;
        side = refl;
        nothing_pending = refl;
        open_still = ground (arith, same);
        outgoing = ground (arith, same);
        splits = sym both.after.left;
        held = refl;
        fresh = refl;
        room_left = ground (arith, same);
        none_lost = λ h. reads_exact r (λ (u : Unit {0}) (line : List ℕ). u) tt refl h;
      }
