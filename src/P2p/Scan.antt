-- ===== src/P2p/Scan.antt =====
-- The loop over the attributes ends, and when it panics.
use rathole_pro.Prelude.{
  ℕ, zero, suc, ◌+◌, ◌≤◌, ◌<◌, ◌≡◌, ◌≢◌, List, length, length-take, take, drop, arith,
}
use rathole_pro.Prelude.Words.{big_endian}
use rathole_pro.P2p.{
  panics, out_of_fuel, aligned, mapped_address, scan, parse_buffer, parse_response, buf_size,
}

mapped_address-ne-out_of_fuel : (buf : List ℕ) (pos : ℕ) → mapped_address buf pos ≢ out_of_fuel
unfolding mapped_address
mapped_address-ne-out_of_fuel buf pos e = ground arith

scan-ne-out_of_fuel :
    (fuel : ℕ) (buf : List ℕ) (n msg_len pos : ℕ)
    → 0 < fuel
    → n < pos + fuel
    → scan fuel buf n msg_len pos ≢ out_of_fuel
unfolding scan
scan-ne-out_of_fuel zero buf n msg_len pos h m e = absurd (omega arith)
scan-ne-out_of_fuel (suc fuel) buf n msg_len pos h m e =
    let attr_len : ℕ = big_endian (take 2 (drop (pos + 2) buf)) in
    ground (
      arith,
      mapped_address-ne-out_of_fuel buf (pos + 4),
      scan-ne-out_of_fuel fuel buf n msg_len (pos + 4 + aligned attr_len),
    )

parse_buffer-ne-out_of_fuel :
    (buf : List ℕ) (n : ℕ) → n ≤ buf_size → parse_buffer buf n ≢ out_of_fuel
unfolding parse_buffer
parse_buffer-ne-out_of_fuel buf n h e =
    ground (arith, scan-ne-out_of_fuel (suc buf_size) buf n (big_endian (take 2 (drop 2 buf))) 20)

-- The parsing of a response ends on every datagram: the rounds that the model gives it are enough.
pub parse_response-ne-out_of_fuel : (datagram : List ℕ) → parse_response datagram ≢ out_of_fuel
unfolding parse_response
parse_response-ne-out_of_fuel datagram =
    parse_buffer-ne-out_of_fuel _ _ (omega (arith, length-take buf_size datagram))

-- An address that reaches past the end of the buffer makes the parsing panic.
pub mapped_address_panics :
    (buf : List ℕ) (pos : ℕ) → length buf < pos + 8 → mapped_address buf pos ≡ panics
unfolding mapped_address
mapped_address_panics buf pos h = ground arith
