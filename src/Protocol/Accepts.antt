-- ===== src/Protocol/Accepts.antt =====
-- The reader accepts frames only: what a successful `ReadMessage` has consumed.
use rathole_pro.Prelude.{
  ℕ, ◌≤◌, ◌≡◌, true, List, [], ◌∷◌, ◌++◌, arith, length, append_assoc, get_or, drop, take,
  All-append_left, inl, inr, ◌==◌,
}
use rathole_pro.Prelude.Words.{IsByte, big_endian, IsBytes, put_u32-big_endian}
use rathole_pro.Prelude.Exec.{ok}
use rathole_pro.Net.Wire.{conn_wire}
use rathole_pro.Net.{Conn}
use mathlib.Core.Path.{subst}
use rathole_pro.Net.Laws.{read_full_cases}
use rathole_pro.Protocol.{
  Json, Envelope, header, read_message, max_frame_size, has_magic, protocol_version,
}
use rathole_pro.Protocol.Framing.{frame}

-- A header that passes the checks is the header of a payload of the size that it states.
parse_header :
    (h payload : List ℕ)
    → length h ≡ 9
    → IsBytes h
    → has_magic h ≡ true
    → (get_or h 4 0 == protocol_version) ≡ true
    → length payload ≡ big_endian (take 4 (drop 5 h))
    → h ≡ header payload
unfolding header
parse_header (a ∷ b ∷ c ∷ d ∷ v ∷ w ∷ x ∷ y ∷ z ∷ []) payload e bytes m p q =
    ground (arith, put_u32-big_endian w x y z)
parse_header _ payload e bytes m p q = absurd (omega arith)

module _ (json : Json) where
  -- On a connection that receives bytes, a successful `ReadMessage` has taken exactly one frame,
  -- with a payload of at most `MaxFrameSize` that decodes to the result.
  pub read_message_inv :
      (env : Envelope) (c d : Conn)
      → IsBytes c.incoming
      → read_message json c ≡ (ok env, d)
      → (payload : List ℕ) × (c.incoming ≡ frame payload ++ d.incoming)
        × (json.unmarshal payload ≡ ok env)
        × (length payload ≤ max_frame_size)
  unfolding read_message
  read_message_inv env c d bytes e = elim (read_full_cases 9 c) [
    | inr (x, c', r) ↦ ground (arith)
    | inl (head, rest, r, len, split) ↦
        elim (read_full_cases (big_endian (take 4 (drop 5 head))) (record c { incoming = rest })) [
          | inr (x, c', r') ↦ ground (arith)
          | inl (payload, rest', r', len', split') ↦ (
            payload,
            ground (
              arith,
              split,
              split',
              append_assoc head payload rest',
              parse_header head payload len
                  (All-append_left IsByte head rest (subst IsBytes split bytes)),
            ),
            ground (arith),
            ground (arith),
          )
        ]
  ]
