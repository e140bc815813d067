-- ===== src/Transport/WebSocket/Meeting.antt =====
-- A client and a server that upgrade one connection.
use rathole_pro.Prelude.{
  ℕ, ◌≤◌, ◌≡◌, ◌≢◌, refl, ap, ◌∙◌, String, true, false, List, [], ◌∷◌, ◌++◌, Option, length, arith,
}
use rathole_pro.Prelude.Text.{bytes, is_space, NoSpace, Lacks, contains}
use rathole_pro.Net.{Conn}
use rathole_pro.Config.{WebSocketConfig}
use rathole_pro.Transport.WebSocket.{
  guid, upgrade_path, upgrade_request, upgrade_response, ws_client_upgrade, ws_server_upgrade,
}
use rathole_pro.Transport.WebSocket.Headers.{
  response_headers, upgrade_response-head_of, response_headers-IsHeadLine,
}
use rathole_pro.Transport.WebSocket.Upgrade.{Upgraded, ws_client_upgrade_ok, ws_server_upgrade_ok}

-- Base64 texts hold no spaces, and the text of some bytes is not empty.
pub record IsBase64 (base64 : List ℕ → List ℕ) : Type 0 where
  pub no_space : (s : List ℕ) → NoSpace (base64 s)
  pub not_empty : (s : List ℕ) → s ≢ [] → base64 s ≢ []

NoSpace-Lacks : (s : List ℕ) → NoSpace s → Lacks b'\n' s
unfolding is_space
NoSpace-Lacks [] h = tt
NoSpace-Lacks (c ∷ s) h = (λ (e : c ≡ b'\n'). ground arith, NoSpace-Lacks s h.1)

module _ (base64 sha1 : List ℕ → List ℕ) (base : IsBase64 base64) (random ahead : ℕ → ℕ) where
  -- Two ends on open connections with room for the messages, each of which receives first what the
  -- other end sends, with a host and a path without line feeds, a key of some bytes, and a Base64
  -- whose texts hold no spaces and are not empty for some bytes: both upgrades succeed, with
  -- opposite sides, each having sent its message, and what follows the other end's message reaches
  -- each end without the bytes in front that its buffered reader took with the head and holds.
  pub upgrade_meets :
      (key_bytes : List ℕ) (host : String) (cfg : Option WebSocketConfig) (client server : Conn)
      (client_rest server_rest : List ℕ)
      → let request = upgrade_request (bytes (upgrade_path cfg)) (bytes host) (base64 key_bytes) in
        let response = upgrade_response (base64 (sha1 (base64 key_bytes ++ guid))) in
        key_bytes ≢ []
        → Lacks b'\n' (bytes host)
        → Lacks b'\n' (bytes (upgrade_path cfg))
        → client.closed ≡ false
        → server.closed ≡ false
        → client.incoming ≡ response ++ client_rest
        → server.incoming ≡ request ++ server_rest
        → length request ≤ client.room
        → length response ≤ server.room
        → Upgraded random ahead client true request client_rest
            (ws_client_upgrade base64 sha1 random ahead key_bytes host cfg client)
          × Upgraded random ahead server false response server_rest
              (ws_server_upgrade base64 sha1 random ahead server)
  upgrade_meets key_bytes host cfg client server client_rest server_rest some h p oc os ec es rc
        rs =
      let key = base64 key_bytes in
      let accept = base64 (sha1 (key ++ guid)) in
      let no_space = base.no_space key_bytes in
      (
        ws_client_upgrade_ok base64 sha1 random ahead key_bytes host cfg
            (bytes "HTTP/1.1 101 Switching Protocols\r") (response_headers accept) client_rest
            client (omega arith) (unfold contains in refl)
            (response_headers-IsHeadLine accept
              (NoSpace-Lacks accept (base.no_space (sha1 (key ++ guid)))))
            oc (ec ∙ ap (λ (t : List ℕ). t ++ client_rest) (upgrade_response-head_of accept)) rc,
        ws_server_upgrade_ok base64 sha1 random ahead (bytes (upgrade_path cfg)) (bytes host) key
            server_rest server p h (NoSpace-Lacks key no_space) no_space
            (base.not_empty key_bytes some) os es rs,
      )
