-- ===== src/HttpProxy/Answers.antt =====
-- What the client and the backend get.
use rathole_pro.Prelude.{
  ℕ, suc, ◌-◌, ◌≤◌, ◌≡◌, ◌≢◌, refl, sym, ap, ◌∙◌, true, false, List, [], ◌∷◌, ◌++◌, append_assoc,
  none, some, if◌then◌else◌, length, length-append, All, arith, ◌⊎◌, inl, inr,
}
use rathole_pro.Prelude.Text.{bytes, to_upper, bytes_eq, bytes_eq_refl, bytes_eq→eq}
use rathole_pro.Prelude.Exec.{Err, Result, ok, err}
use rathole_pro.Net.{Conn, write, close}
use rathole_pro.Net.Laws.{write_ok}
use rathole_pro.Bufio.{new_reader}
use rathole_pro.Bufio.Heads.{
  read_head, read_head_ok, over_lines, IsHeadLine, head_of, length-head_of, crlf,
}
use rathole_pro.HttpProxy.{
  RequestLine, parse_request_line, extract_host, with_port, Handled, forwarded, tunnels,
  bad_gateway, established, handle_connect, forward_request, handle_forward, handle_http_proxy,
}

-- Appending the lines gives the head back.
over_lines-append :
    (request : List ℕ) (lines : List (List ℕ))
    → over_lines (λ (s : List ℕ) line. s ++ line) request lines ≡ request ++ head_of lines
over_lines-append request [] = refl
over_lines-append request (line ∷ lines) =
    over_lines-append (request ++ (line ++ crlf)) lines
    ∙ append_assoc request (line ++ crlf) (head_of lines)

-- A client that has sent a whole head, and something behind it.
pub record Sends (conn : Conn) (lines : List (List ℕ)) (rest : List ℕ) (q : RequestLine)
    : Type 0 where
  pub is_open : conn.closed ≡ false
  pub arrives : conn.incoming ≡ head_of lines ++ rest
  pub sound : All IsHeadLine lines
  pub parses : parse_request_line (head_of lines) ≡ ok q

-- What the reader leaves on the connection is the end of what stands behind the head.
record Leaves (conn left : Conn) (rest : List ℕ) : Type 0 where
  lost : List ℕ
  splits : rest ≡ lost ++ left.incoming
  same : left ≡ record conn { incoming = left.incoming }

module _ (dial : List ℕ → Result Conn) (ahead : ℕ → ℕ) (conn : Conn) (lines : List (List ℕ))
    (rest : List ℕ) (q : RequestLine) (s : Sends conn lines rest q) where
  dispatch : Conn → Handled
  dispatch left =
      if bytes_eq (to_upper q.method) (bytes "CONNECT")
      then handle_connect dial q.target left
      else handle_forward dial (head_of lines) left

  handle_lem :
      (left : Conn) × (handle_http_proxy dial ahead conn ≡ dispatch left) × Leaves conn left rest
  unfolding handle_http_proxy dispatch
  handle_lem =
      let r = new_reader conn ahead in
      let body = λ (s : List ℕ) (line : List ℕ). s ++ line in
      let (a, b) =
        read_head_ok body (suc (length conn.incoming)) [] lines rest r s.sound s.is_open s.arrives (
          omega (
            arith,
            length-head_of lines,
            length-append (head_of lines) rest,
            ap length s.arrives,
          )) in
      let after = (read_head body (suc (length conn.incoming)) [] r).1 in
      (
        after.conn,
        ground (arith, a, over_lines-append [] lines, s.parses),
        record { lost = after.buffered; splits = sym b.left; same = b.same_conn },
      )

  -- A client on an open connection that sends a whole head, whose request line parses and has
  -- another method than `CONNECT`, and something behind it; a host in that head that can be
  -- reached, on an open connection with room for the head, while the client's has room for the
  -- answer: the backend gets the head and no byte of what stands behind it, the client gets what
  -- the backend sends until it ends, and both connections are closed.
  pub handle_http_proxy-forwards :
      (host : List ℕ) (backend : Conn)
      → to_upper q.method ≢ bytes "CONNECT"
      → extract_host (head_of lines) ≡ host
      → host ≢ []
      → dial (with_port host) ≡ ok backend
      → backend.closed ≡ false
      → length (head_of lines) ≤ backend.room
      → length backend.incoming ≤ conn.room
      → let h = handle_http_proxy dial ahead conn in
        (h.outcome ≡ forwarded)
        × (h.client.outgoing ≡ conn.outgoing ++ backend.incoming)
        × (h.client.closed ≡ true)
        × (b : Conn) × (h.backend ≡ some b)
        × (b.outgoing ≡ backend.outgoing ++ head_of lines)
        × (b.closed ≡ true)
  unfolding dispatch handle_forward forward_request close
  handle_http_proxy-forwards host backend not_connect found there up o room back_room =
      let (left, e, l) = handle_lem in
      let b : Conn = record backend {
        incoming = [];
        outgoing = backend.outgoing ++ head_of lines;
        room = backend.room - length (head_of lines);
        closed = true;
      } in
      let h : handle_http_proxy dial ahead conn ≡ record {
        outcome = forwarded;
        client = (close (write backend.incoming left).1).1;
        backend = some b;
      } =
        e
        ∙ ground (
          arith,
          bytes_eq→eq (to_upper q.method) (bytes "CONNECT"),
          found,
          there,
          up,
          write_ok (head_of lines) backend o room,
        ) in
      let answer : (write backend.incoming left).1.outgoing ≡ conn.outgoing ++ backend.incoming =
        ground (arith, write_ok backend.incoming left, s.is_open, l.same) in
      (
        ap (λ v. v.outcome) h,
        ap (λ v. v.client.outgoing) h ∙ answer,
        ap (λ v. v.client.closed) h,
        b,
        ap (λ v. v.backend) h,
        refl,
        refl,
      )

  -- A client on an open connection with room for the answer that sends a whole head, whose request
  -- line parses and has the method `CONNECT`, and something behind it, to a target that can be
  -- reached: the client is told so, and the tunnel starts with a connection on which stands a last
  -- part of what the client sent behind its head; the bytes in front of that part are lost.
  pub handle_http_proxy-tunnels :
      (backend : Conn)
      → to_upper q.method ≡ bytes "CONNECT"
      → dial q.target ≡ ok backend
      → length established ≤ conn.room
      → (client : Conn) × (lost : List ℕ) × ((handle_http_proxy dial ahead conn).outcome
          ≡ tunnels client backend)
        × (client.outgoing ≡ conn.outgoing ++ established)
        × (rest ≡ lost ++ client.incoming)
        × (client.closed ≡ false)
  unfolding dispatch handle_connect
  handle_http_proxy-tunnels backend is_connect up room =
      let (left, e, l) = handle_lem in
      let sent = write_ok established left in
      (
        (write established left).1,
        l.lost,
        rw e (
            ground
              (arith, bytes_eq_refl (bytes "CONNECT"), is_connect, up, sent, s.is_open, l.same)),
        ground (arith, sent, s.is_open, l.same),
        ground (arith, sent, s.is_open, l.same, l.splits),
        ground (arith, sent, s.is_open, l.same),
      )

  -- The target of the request cannot be reached.
  abbrev pub IsUnreachable : Err → Type 0
  IsUnreachable e =
      ((to_upper q.method ≡ bytes "CONNECT") × (dial q.target ≡ err e))
      ⊎ ((to_upper q.method ≢ bytes "CONNECT")
          × (extract_host (head_of lines) ≢ [])
          × (dial (with_port (extract_host (head_of lines))) ≡ err e))

  -- Whatever the method, a client whose target cannot be reached gets `502 Bad Gateway`, and is
  -- closed.
  pub handle_http_proxy-unreachable :
      (e : Err)
      → IsUnreachable e
      → length bad_gateway ≤ conn.room
      → let h = handle_http_proxy dial ahead conn in
        (h.client.outgoing ≡ conn.outgoing ++ bad_gateway)
        × (h.client.closed ≡ true)
        × (h.backend ≡ none)
  unfolding dispatch handle_connect handle_forward forward_request close
  handle_http_proxy-unreachable e down room =
      let (left, same, l) = handle_lem in
      let answer : (write bad_gateway left).1.outgoing ≡ conn.outgoing ++ bad_gateway =
        ground (arith, write_ok bad_gateway left, s.is_open, l.same) in
      rw same (elim down [
        | inl (is_connect, failed) ↦
            ground (arith, bytes_eq_refl (bytes "CONNECT"), is_connect, failed, answer)
        | inr (not_connect, has_host, failed) ↦ ground (
          arith,
          bytes_eq→eq (to_upper q.method) (bytes "CONNECT"),
          not_connect,
          has_host,
          failed,
          answer,
        )
      ])
