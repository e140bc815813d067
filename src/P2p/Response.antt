-- ===== src/P2p/Response.antt =====
-- Responses as a STUN server writes them, and what the parsing makes of them.
use rathole_pro.Prelude.{
  ℕ, zero, suc, ◌+◌, ◌-◌, ◌/◌, ◌^◌, ◌≤◌, ◌<◌, ◌≡◌, refl, ◌∙◌, List, [], ◌∷◌, ◌++◌, append_assoc,
  length, length-append, drop, take_all, drop-length-append, replicate, arith, bit_xor, All,
}
use rathole_pro.Prelude.Bits.{bit_xor_cancel, bit_xor-lt}
use rathole_pro.Prelude.Words.{put_u16, put_u32, big_endian-put_u16, big_endian-put_u32}
use rathole_pro.P2p.{
  UdpAddr, address, mapped_address, scan, parse_buffer, parse_response, buf_size, magic_cookie,
}
use rathole_pro.P2p.Attributes.{
  field_lem, drop_past, Attribute, IsOther, attribute_bytes, scan_other,
}

-- The XOR-MAPPED-ADDRESS attribute of an IPv4 address.
abbrev pub mapped_bytes : ℕ → UdpAddr → List ℕ
mapped_bytes family a =
    put_u16 0x0020
    ++ (put_u16 8
        ++ (put_u16 family
            ++ (put_u16 (bit_xor a.port (magic_cookie / 2 ^ 16))
                ++ put_u32 (bit_xor a.ip magic_cookie))))

mapped_address_lem :
    (buf : List ℕ) (pos family : ℕ) (a : UdpAddr) (rest : List ℕ)
    → a.port < 2 ^ 16
    → a.ip < 2 ^ 32
    → drop pos buf
      ≡ put_u16 family
        ++ (put_u16 (bit_xor a.port (magic_cookie / 2 ^ 16))
            ++ (put_u32 (bit_xor a.ip magic_cookie) ++ rest))
    → mapped_address buf pos ≡ address a
unfolding mapped_address put_u16 put_u32
mapped_address_lem buf pos family a rest hp hi e =
    let x_port = put_u16 (bit_xor a.port (magic_cookie / 2 ^ 16)) in
    let x_ip = put_u32 (bit_xor a.ip magic_cookie) in
    let port_at = drop_past buf pos (put_u16 family) (x_port ++ (x_ip ++ rest)) e in
    let ip_at : drop (pos + 4) buf ≡ x_ip ++ rest =
      ground (arith, drop_past buf (pos + 2) x_port (x_ip ++ rest) port_at) in
    ground (
      arith,
      field_lem buf (pos + 2) x_port (x_ip ++ rest) (omega arith) port_at,
      field_lem buf (pos + 4) x_ip rest (omega arith) ip_at,
      bit_xor-lt 16 a.port (magic_cookie / 2 ^ 16),
      bit_xor-lt 32 a.ip magic_cookie,
      big_endian-put_u16 (bit_xor a.port (magic_cookie / 2 ^ 16)),
      big_endian-put_u32 (bit_xor a.ip magic_cookie),
      bit_xor_cancel a.port (magic_cookie / 2 ^ 16),
      bit_xor_cancel a.ip magic_cookie,
    )

scan_mapped :
    (fuel : ℕ) (buf : List ℕ) (n msg_len pos family : ℕ) (a : UdpAddr) (rest : List ℕ)
    → a.port < 2 ^ 16
    → a.ip < 2 ^ 32
    → drop pos buf ≡ mapped_bytes family a ++ rest
    → pos + 4 ≤ n
    → pos + 4 ≤ 20 + msg_len
    → scan (suc fuel) buf n msg_len pos ≡ address a
unfolding scan put_u16
scan_mapped fuel buf n msg_len pos family a rest hp hi e p q =
    let body =
      put_u16 family
      ++ (put_u16 (bit_xor a.port (magic_cookie / 2 ^ 16))
          ++ (put_u32 (bit_xor a.ip magic_cookie) ++ rest)) in
    let size_at = drop_past buf pos (put_u16 0x0020) (put_u16 8 ++ body) e in
    let body_at : drop (pos + 4) buf ≡ body =
      ground (arith, drop_past buf (pos + 2) (put_u16 8) body size_at) in
    ground (
      arith,
      field_lem buf pos (put_u16 0x0020) (put_u16 8 ++ body) (omega arith) e,
      field_lem buf (pos + 2) (put_u16 8) body (omega arith) size_at,
      big_endian-put_u16 0x0020,
      big_endian-put_u16 8,
      mapped_address_lem buf (pos + 4) family a rest hp hi body_at,
    )

abbrev pub attributes_bytes : List Attribute → List ℕ
attributes_bytes [] = []
attributes_bytes (a ∷ as_) = attribute_bytes a ++ attributes_bytes as_

scan_response :
    (fuel : ℕ) (buf : List ℕ) (n msg_len pos family : ℕ) (others : List Attribute) (a : UdpAddr)
    (rest : List ℕ)
    → All IsOther others
    → a.port < 2 ^ 16
    → a.ip < 2 ^ 32
    → drop pos buf ≡ attributes_bytes others ++ (mapped_bytes family a ++ rest)
    → pos + length (attributes_bytes others) + 4 ≤ n
    → pos + length (attributes_bytes others) ≤ 16 + msg_len
    → n < pos + fuel
    → scan fuel buf n msg_len pos ≡ address a
scan_response zero buf n msg_len pos family others a rest h hp hi e p q f = absurd (omega arith)
scan_response (suc fuel) buf n msg_len pos family [] a rest h hp hi e p q f =
    scan_mapped fuel buf n msg_len pos family a rest hp hi e (omega arith) (omega arith)
scan_response (suc fuel) buf n msg_len pos family (o ∷ others) a rest h hp hi e p q f =
    let tail = attributes_bytes others ++ (mapped_bytes family a ++ rest) in
    let e' : drop pos buf ≡ attribute_bytes o ++ tail =
      e
      ∙ append_assoc (attribute_bytes o) (attributes_bytes others)
          (mapped_bytes family a ++ rest) in
    let size = length-append (attribute_bytes o) (attributes_bytes others) in
    let at_least : 4 ≤ length (attribute_bytes o) = unfold put_u16 in omega arith in
    scan_other fuel buf n msg_len pos o tail h.0 e' (omega (arith, size)) (omega (arith, size))
    ∙ scan_response fuel buf n msg_len (pos + length (attribute_bytes o)) family others a rest h.1
        hp hi (drop_past buf pos (attribute_bytes o) tail e') (omega (arith, size))
        (omega (arith, size)) (omega arith)

parse_buffer_ok :
    (buf : List ℕ) (n msg_len family : ℕ) (others : List Attribute) (a : UdpAddr)
    (behind rest : List ℕ)
    → All IsOther others
    → a.port < 2 ^ 16
    → a.ip < 2 ^ 32
    → msg_len < 2 ^ 16
    → n ≤ buf_size
    → drop 2 buf ≡ put_u16 msg_len ++ behind
    → drop 20 buf ≡ attributes_bytes others ++ (mapped_bytes family a ++ rest)
    → 20 + length (attributes_bytes others) + 4 ≤ n
    → length (attributes_bytes others) + 4 ≤ msg_len
    → parse_buffer buf n ≡ address a
unfolding parse_buffer put_u16
parse_buffer_ok buf n msg_len family others a behind rest h hp hi small fits size_at body_at p q =
    ground (
      arith,
      field_lem buf 2 (put_u16 msg_len) behind (omega arith) size_at,
      big_endian-put_u16 msg_len,
      scan_response (suc buf_size) buf n msg_len 20 family others a rest h hp hi body_at,
    )

drop_header :
    (kind msg_len : ℕ) (middle body : List ℕ)
    → length middle ≡ 16
    → drop 20 (put_u16 kind ++ (put_u16 msg_len ++ (middle ++ body))) ≡ body
unfolding put_u16
drop_header kind msg_len middle body m = ground (arith, drop-length-append middle body)

length_attributes :
    (response header : List ℕ) (family : ℕ) (others : List Attribute) (a : UdpAddr) (rest : List ℕ)
    → response ≡ header ++ (attributes_bytes others ++ (mapped_bytes family a ++ rest))
    → length header + length (attributes_bytes others) + 4 ≤ length response
unfolding put_u16 put_u32
length_attributes response header family others a rest e = ground (
  arith,
  length-append header (attributes_bytes others ++ (mapped_bytes family a ++ rest)),
  length-append (attributes_bytes others) (mapped_bytes family a ++ rest),
)

-- A response of at most 256 bytes, whose length field reaches the address attribute, gives the
-- address that it states, whatever other attributes stand in front of it, padded to four bytes.
pub parse_response_ok :
    (kind msg_len family : ℕ) (middle : List ℕ) (others : List Attribute) (a : UdpAddr)
    (rest : List ℕ) (response : List ℕ)
    → response
      ≡ put_u16 kind
        ++ (put_u16 msg_len
            ++ (middle ++ (attributes_bytes others ++ (mapped_bytes family a ++ rest))))
    → length middle ≡ 16
    → length response ≤ buf_size
    → msg_len < 2 ^ 16
    → length (attributes_bytes others) + 4 ≤ msg_len
    → All IsOther others
    → a.port < 2 ^ 16
    → a.ip < 2 ^ 32
    → parse_response response ≡ address a
unfolding parse_response
parse_response_ok kind msg_len family middle others a rest response e m fits small inside h hp hi =
    let zeros = replicate {A = ℕ} (buf_size - length response) 0 in
    let body = attributes_bytes others ++ (mapped_bytes family a ++ rest) in
    let shape : response ++ zeros
        ≡ put_u16 kind
          ++ (put_u16 msg_len
              ++ (middle
                  ++ (attributes_bytes others ++ (mapped_bytes family a ++ (rest ++ zeros))))) =
      unfold put_u16 put_u32 in simp (e, append_assoc) in
    let room =
      length_attributes response (put_u16 kind ++ (put_u16 msg_len ++ middle)) family others a rest
        (unfold put_u16 in e) in
    rw (take_all buf_size response fits) (
      parse_buffer_ok (response ++ zeros) (length response) msg_len family others a
        (middle ++ (attributes_bytes others ++ (mapped_bytes family a ++ (rest ++ zeros))))
        (rest ++ zeros) h hp hi small fits (rw shape (unfold put_u16 in refl))
        (rw shape (
          drop_header kind msg_len middle
            (attributes_bytes others ++ (mapped_bytes family a ++ (rest ++ zeros))) m))
        (unfold put_u16 in omega (arith, m, room)) inside)
