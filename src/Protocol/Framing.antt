-- ===== src/Protocol/Framing.antt =====
-- Reading back what was written, and what the reader accepts.
use rathole_pro.Prelude.{
  [], ℕ, ◌+◌, ◌-◌, ◌≤◌, ◌≡◌, ◌∙◌, refl, false, List, ◌++◌, arith, length, append_assoc,
}
use rathole_pro.Prelude.Exec.{ok}
use rathole_pro.Net.Wire.{conn_wire}
use rathole_pro.Net.{Conn}
use rathole_pro.Net.Laws.{read_full-append, write_ok}
use rathole_pro.Protocol.Wires.{length-header, write_message-Sends, read_message-Gives}
use rathole_pro.Protocol.{Json, Envelope, Encodes, header, write_message, read_message}

-- The bytes of a message on the wire.
abbrev pub frame : List ℕ → List ℕ
frame payload = header payload ++ payload

module _ (json : Json) (env : Envelope) (payload : List ℕ) (enc : Encodes json env payload) where
  -- `WriteMessage` on an open connection with room for it sends the header and the payload.
  pub write_message_ok :
      (c : Conn)
      → c.closed ≡ false
      → 9 + length payload ≤ c.room
      → write_message json env c ≡ (
        ok tt,
        record c { outgoing = c.outgoing ++ frame payload; room = c.room - 9 - length payload },
      )
  write_message_ok c open_conn room =
      let sent = record c {
        outgoing = c.outgoing ++ header payload;
        room = c.room - length (header payload);
      } in
      write_message-Sends json env payload enc c sent _
        (write_ok (header payload) c open_conn (omega (arith, length-header payload)))
        (write_ok payload sent open_conn (omega (arith, length-header payload)))
      ∙ ground (arith, length-header payload, append_assoc c.outgoing (header payload) payload)

  -- `ReadMessage` gives back a message that `WriteMessage` framed, and leaves what follows it.
  pub read_message_ok :
      (rest : List ℕ) (c : Conn)
      → c.closed ≡ false
      → c.incoming ≡ frame payload ++ rest
      → read_message json c ≡ (ok env, record c { incoming = rest })
  read_message_ok rest c open_conn e =
      let left = record c { incoming = payload ++ rest } in
      read_message-Gives json env payload enc c left (record c { incoming = rest })
        (read_full-append (header payload) (payload ++ rest) c open_conn
          (e ∙ append_assoc (header payload) payload rest))
        (read_full-append payload rest left open_conn refl)

  -- A message that the codec reads back, on an open connection with room for it and nothing sent
  -- before: what `WriteMessage` sends, `ReadMessage` at the other end gives back as the same
  -- message, and leaves what follows it.
  pub read_message-write_message :
      (rest : List ℕ) (sender receiver : Conn)
      → sender.closed ≡ false
      → 9 + length payload ≤ sender.room
      → sender.outgoing ≡ []
      → receiver.closed ≡ false
      → receiver.incoming ≡ (write_message json env sender).1.outgoing ++ rest
      → ((write_message json env sender).0 ≡ ok tt)
        × (read_message json receiver ≡ (ok env, record receiver { incoming = rest }))
  read_message-write_message rest sender receiver o room fresh o' arrives =
      ground (arith, write_message_ok sender, read_message_ok rest receiver)
