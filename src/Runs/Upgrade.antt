-- ===== src/Runs/Upgrade.antt =====
-- The WebSocket upgrade of one connection, with a stand-in for Base64.
use rathole_pro.Prelude.{ℕ, refl, true, false, List, [], ◌∷◌, ◌++◌, none, arith}
use rathole_pro.Prelude.Text.{bytes, is_space}
use rathole_pro.Net.{Conn}
use rathole_pro.Transport.WebSocket.{
  upgrade_path, upgrade_request, upgrade_response, ws_client_upgrade, ws_server_upgrade,
}
use rathole_pro.Transport.WebSocket.Upgrade.{Upgraded}
use rathole_pro.Transport.WebSocket.Meeting.{IsBase64, upgrade_meets}

abbrev pub base64 : List ℕ → List ℕ
base64 s = bytes "QUJD"

pub base64-IsBase64 : IsBase64 base64
unfolding is_space
base64-IsBase64 = record {
  no_space = λ s. (refl, (refl, (refl, (refl, tt))));
  not_empty = λ s h. ground arith;
}

abbrev pub sha1 : List ℕ → List ℕ
sha1 s = 7 ∷ []

abbrev request : List ℕ
request = upgrade_request (bytes "/tunnel") (bytes "example.org:2333") (base64 (1 ∷ []))

abbrev response : List ℕ
response = upgrade_response (bytes "QUJD")

abbrev conn_of : List ℕ → Conn
conn_of incoming = record { incoming = incoming; outgoing = []; room = 500; closed = false }

upgrade_meets_example :
    Upgraded
      (λ i. 0)
      (λ i. 1)
      (conn_of (response ++ 1 ∷ 2 ∷ []))
      true
      request
      (1 ∷ 2 ∷ [])
      (ws_client_upgrade base64 sha1
        (λ i. 0)
        (λ i. 1)
        (1 ∷ [])
        "example.org:2333"
        none
        (conn_of (response ++ 1 ∷ 2 ∷ [])))
    × Upgraded
        (λ i. 0)
        (λ i. 1)
        (conn_of (request ++ 3 ∷ []))
        false
        response
        (3 ∷ [])
        (ws_server_upgrade base64 sha1 (λ i. 0) (λ i. 1) (conn_of (request ++ 3 ∷ [])))
unfolding upgrade_path upgrade_request upgrade_response
upgrade_meets_example =
    upgrade_meets base64 sha1 base64-IsBase64 (λ i. 0) (λ i. 1) (1 ∷ []) "example.org:2333" none
      (conn_of (response ++ 1 ∷ 2 ∷ [])) (conn_of (request ++ 3 ∷ [])) (1 ∷ 2 ∷ []) (3 ∷ [])
      (ground arith) (omega arith) (omega arith) refl refl refl refl (omega arith) (omega arith)
