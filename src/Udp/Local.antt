-- ===== src/Udp/Local.antt =====
-- go-core/udp/udp.go: `ClientUDP` between the stream and the local service.
pub mod Order
pub mod Ends
use rathole_pro.Prelude.{ℕ, zero, suc, ◌≡◌, List, [], ◌∷◌, ◌++◌}
use rathole_pro.Prelude.Exec.{Result, ok, err, out_of_fuel, Exec, raise, done, ◌>>=◌, ◌>>◌}
use rathole_pro.Net.{Conn, write}
use rathole_pro.Udp.{client_frame, read_client_frame}

-- The stream, and the datagrams that the local service was sent.
pub record LocalForwarder : Type 0 where
  pub stream : Conn
  pub to_service : List (List ℕ)

abbrev on_stream : {A : Type 0} → Exec Conn A → Exec LocalForwarder A
on_stream x f = let r = x f.stream in (r.0, record f { stream = r.1 })

-- A round of the goroutine that reads the stream.
unfoldable pub local_round : Exec LocalForwarder (Unit {0})
local_round = do
  payload ← on_stream read_client_frame
  λ f. (ok tt, record f { to_service = f.to_service ++ payload ∷ [] })

-- Its loop, which ends at a failed read.
unfoldable pub local_loop : ℕ → Exec LocalForwarder (Unit {0})
local_loop zero = raise out_of_fuel
local_loop (suc fuel) = do local_round; local_loop fuel

-- A round of the loop over the datagrams of the local service.
unfoldable pub on_reply : List ℕ → Exec LocalForwarder (Unit {0})
on_reply payload = do on_stream (write (client_frame payload)); done
