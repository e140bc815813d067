-- ===== src/Transport/WebSocket/Headers.antt =====
-- The lines that both sides of the upgrade send, and the key among them.
use rathole_pro.Prelude.{
  ℕ, ◌≡◌, ◌≢◌, refl, ◌∙◌, false, List, [], ◌∷◌, ◌++◌, append_assoc, All, All-append, arith,
}
use rathole_pro.Prelude.Text.{
  bytes, is_empty, is_space, NoSpace, Lacks, trim_space, trim_right, trim_right-append,
  trim_right-NoSpace, trim_value, cut,
}
use rathole_pro.Bufio.Heads.{over_lines, IsHeadLine, head_of, crlf}
use rathole_pro.Transport.WebSocket.{upgrade_request, upgrade_response, header_key}

-- The header lines of the request.
abbrev pub request_headers : (host key : List ℕ) → List (List ℕ)
request_headers host key =
    (bytes "Host: " ++ host)
    ∷ bytes "Upgrade: websocket"
    ∷ bytes "Connection: Upgrade"
    ∷ (bytes "Sec-WebSocket-Key: " ++ key)
    ∷ bytes "Sec-WebSocket-Version: 13"
    ∷ []

abbrev pub response_headers : (accept : List ℕ) → List (List ℕ)
response_headers accept =
    bytes "Upgrade: websocket"
    ∷ bytes "Connection: Upgrade"
    ∷ (bytes "Sec-WebSocket-Accept: " ++ accept)
    ∷ []

pub upgrade_request-head_of :
    (path host key : List ℕ)
    → upgrade_request path host key
      ≡ (bytes "GET " ++ (path ++ bytes " HTTP/1.1\r"))
        ++ b'\n' ∷ head_of (request_headers host key)
unfolding upgrade_request
upgrade_request-head_of path host key = simp append_assoc

pub upgrade_response-head_of :
    (accept : List ℕ)
    → upgrade_response accept
      ≡ bytes "HTTP/1.1 101 Switching Protocols\r" ++ b'\n' ∷ head_of (response_headers accept)
unfolding upgrade_response
upgrade_response-head_of accept = simp append_assoc

pub is_empty-ne : (s : List ℕ) → s ≢ [] → is_empty s ≡ false
is_empty-ne [] h = absurd (h refl)
is_empty-ne (c ∷ s) h = refl

trim_right-crlf : (s : List ℕ) → NoSpace s → trim_right (s ++ crlf) ≡ s
unfolding trim_right is_space
trim_right-crlf s h = trim_right-append s crlf refl ∙ trim_right-NoSpace s h

-- The line with the key gives the key.
header_key-key_line :
    (key : List ℕ)
    → NoSpace key
    → key ≢ []
    → header_key [] ((bytes "Sec-WebSocket-Key: " ++ key) ++ crlf) ≡ key
unfolding header_key
header_key-key_line key h some_key =
    let line = bytes "Sec-WebSocket-Key: " ++ key in
    let trimmed : trim_space (line ++ crlf) ≡ line =
      unfold trim_space in rw (trim_right-crlf key h, is_empty-ne key some_key) refl in
    rw trimmed (unfold cut in trim_value key h)

-- The other lines leave it alone.
pub over_lines-request :
    (host key : List ℕ)
    → NoSpace key
    → key ≢ []
    → over_lines header_key [] (request_headers host key) ≡ key
unfolding header_key trim_space
over_lines-request host key h some_key = rw (header_key-key_line key h some_key) refl

pub Lacks-cr : (s : List ℕ) → Lacks b'\n' s → Lacks b'\n' (s ++ b'\r' ∷ [])
Lacks-cr s h = All-append (λ (c : ℕ). c ≢ b'\n') s (b'\r' ∷ []) (h, omega arith)

pub request_headers-IsHeadLine :
    (host key : List ℕ)
    → Lacks b'\n' host
    → Lacks b'\n' key
    → All IsHeadLine (request_headers host key)
unfolding trim_space
request_headers-IsHeadLine host key h k = ground (arith, Lacks-cr host h, Lacks-cr key k)

pub response_headers-IsHeadLine :
    (accept : List ℕ) → Lacks b'\n' accept → All IsHeadLine (response_headers accept)
unfolding trim_space
response_headers-IsHeadLine accept h = ground (arith, Lacks-cr accept h)
