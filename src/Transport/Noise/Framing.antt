-- ===== src/Transport/Noise/Framing.antt =====
-- One `Write` and the `Read` that meets it.
use rathole_pro.Prelude.{
  ℕ, ◌+◌, ◌-◌, ◌*◌, ◌/◌, ◌%◌, ◌^◌, ◌≤◌, ◌<◌, ◌≡◌, false, List, [], ◌∷◌, ◌++◌, length, append_assoc,
  take, drop, take-append-drop, length-take, arith,
}
use rathole_pro.Prelude.Bits.{bit_or_bytes}
use rathole_pro.Prelude.Words.{u8}
use rathole_pro.Prelude.Exec.{ok}
use rathole_pro.Net.Laws.{read_full-append, write_ok}
use rathole_pro.Transport.Xor.{length-xor_from, take-xor_from, xor_from_cancel}
use rathole_pro.Transport.Noise.{NoiseConn, xor_crypt, noise_read, noise_write}

-- The bytes of a `Write` on the wire.
abbrev pub noise_frame : List ℕ → List ℕ → List ℕ
noise_frame key b = (u8 (length b / 2 ^ 8) ∷ u8 (length b) ∷ []) ++ xor_crypt b key

pub length-xor_crypt : (b key : List ℕ) → length (xor_crypt b key) ≡ length b
unfolding xor_crypt
length-xor_crypt b key = length-xor_from key (length key) 0 b

xor_crypt_cancel : (b key : List ℕ) → xor_crypt (xor_crypt b key) key ≡ b
unfolding xor_crypt
xor_crypt_cancel b key = xor_from_cancel key (length key) 0 b

-- `Write` sends the two length bytes and the masked bytes, and reports all of `b` as sent.
pub noise_write_ok :
    (b : List ℕ) (nc : NoiseConn)
    → nc.raw.closed ≡ false
    → 2 + length b ≤ nc.raw.room
    → noise_write b nc ≡ (
      ok (length b),
      record nc {
        raw = record nc.raw {
          outgoing = nc.raw.outgoing ++ noise_frame nc.enc_key b;
          room = nc.raw.room - 2 - length b;
        };
      },
    )
unfolding noise_write
noise_write_ok b nc open_conn room =
    let masked = xor_crypt b nc.enc_key in
    let head : List ℕ = u8 (length masked / 2 ^ 8) ∷ u8 (length masked) ∷ [] in
    ground (
      arith,
      length-xor_crypt b nc.enc_key,
      write_ok head nc.raw,
      write_ok masked
          (record nc.raw { outgoing = nc.raw.outgoing ++ head; room = nc.raw.room - 2 }),
      append_assoc nc.raw.outgoing head masked,
    )

-- `Read` on a header and the bytes that it counts.
pub noise_read_counted :
    (size : ℕ) (h0 h1 : ℕ) (buf rest : List ℕ) (nc : NoiseConn)
    → h0 < 256
    → h1 < 256
    → h0 * 256 + h1 ≡ length buf
    → nc.raw.closed ≡ false
    → nc.raw.incoming ≡ h0 ∷ h1 ∷ (buf ++ rest)
    → noise_read size nc ≡ (
      ok (take size (xor_crypt buf nc.dec_key)),
      record nc { raw = record nc.raw { incoming = rest } },
    )
unfolding noise_read
noise_read_counted size h0 h1 buf rest nc p q count open_conn arrives = ground (
  arith,
  bit_or_bytes h0 h1,
  read_full-append (h0 ∷ h1 ∷ []) (buf ++ rest) nc.raw,
  read_full-append buf rest (record nc.raw { incoming = buf ++ rest }),
)

pub noise_read_frame :
    (size : ℕ) (b rest : List ℕ) (nc : NoiseConn)
    → length b ≤ 65535
    → nc.raw.closed ≡ false
    → nc.raw.incoming ≡ noise_frame nc.dec_key b ++ rest
    → noise_read size nc ≡ (ok (take size b), record nc { raw = record nc.raw { incoming = rest } })
noise_read_frame size b rest nc h open_conn arrives = ground (
  arith,
  noise_read_counted size (u8 (length b / 2 ^ 8)) (u8 (length b)) (xor_crypt b nc.dec_key) rest nc,
  length-xor_crypt b nc.dec_key,
  xor_crypt_cancel b nc.dec_key,
)

take-xor_crypt : (n : ℕ) (b key : List ℕ) → take n (xor_crypt b key) ≡ xor_crypt (take n b) key
unfolding xor_crypt
take-xor_crypt n b key = take-xor_from n key (length key) 0 b

-- On an open connection `Read` takes the length of what was written modulo 65536 for its length:
-- it returns at most so many of the bytes, and the others stay on the wire, masked, at the place
-- of the next header.
pub noise_read_oversized :
    (size : ℕ) (b rest : List ℕ) (nc : NoiseConn)
    → nc.raw.closed ≡ false
    → nc.raw.incoming ≡ noise_frame nc.dec_key b ++ rest
    → noise_read size nc ≡ (
      ok (take size (take (length b % 65536) b)),
      record nc {
        raw = record nc.raw { incoming = drop (length b % 65536) (xor_crypt b nc.dec_key) ++ rest };
      },
    )
noise_read_oversized size b rest nc open_conn arrives =
    let masked = xor_crypt b nc.dec_key in
    let count : ℕ = length b % 65536 in
    ground (
      arith,
      noise_read_counted size (u8 (length b / 2 ^ 8)) (u8 (length b)) (take count masked)
          (drop count masked ++ rest) nc,
      length-take count masked,
      length-xor_crypt b nc.dec_key,
      take-append-drop count masked,
      append_assoc (take count masked) (drop count masked) rest,
      take-xor_crypt count b nc.dec_key,
      xor_crypt_cancel (take count b) nc.dec_key,
    )

-- What `Write` sends on an open connection with room for it and nothing sent before, at most 65535
-- bytes, is reported as sent, and `Read` with the same key at the other end returns as much of it
-- as its buffer holds; the rest is neither returned nor left on the wire.
pub noise_read-noise_write :
    (size : ℕ) (b rest : List ℕ) (sender receiver : NoiseConn)
    → length b ≤ 65535
    → sender.raw.closed ≡ false
    → 2 + length b ≤ sender.raw.room
    → sender.raw.outgoing ≡ []
    → receiver.dec_key ≡ sender.enc_key
    → receiver.raw.closed ≡ false
    → receiver.raw.incoming ≡ (noise_write b sender).1.raw.outgoing ++ rest
    → ((noise_write b sender).0 ≡ ok (length b))
      × (noise_read size receiver
          ≡ (ok (take size b), record receiver { raw = record receiver.raw { incoming = rest } }))
noise_read-noise_write size b rest sender receiver h o room fresh same o' arrives =
    ground (arith, noise_write_ok b sender, noise_read_frame size b rest receiver)
