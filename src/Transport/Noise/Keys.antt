-- ===== src/Transport/Noise/Keys.antt =====
-- The key exchange: both sides end with the same key, and so does anyone who listens.
use rathole_pro.Prelude.{
  ℕ, ◌-◌, ◌≤◌, ◌≡◌, refl, ◌∙◌, String, false, true, List, [], ◌∷◌, ◌++◌, Option, some, length,
  length-set, bit_xor, arith,
}
use rathole_pro.Prelude.Bits.{bit_xor_assoc, bit_xor_comm, bit_xor_cancel}
use rathole_pro.Prelude.Exec.{ok}
use rathole_pro.Net.{Conn}
use rathole_pro.Net.Laws.{read_full-append, write_ok}
use rathole_pro.Config.{NoiseConfig}
use rathole_pro.Transport.Noise.{
  NoiseConn, clamp_key, scalar_base_mult, scalar_mult, noise_server_upgrade, noise_client_upgrade,
  has_private_key,
}

scalar_mult_comm : (a b : List ℕ) → scalar_mult a b ≡ scalar_mult b a
unfolding scalar_mult
scalar_mult_comm [] [] = refl
scalar_mult_comm [] (y ∷ b) = refl
scalar_mult_comm (x ∷ a) [] = refl
scalar_mult_comm (x ∷ a) (y ∷ b) = ground (arith, bit_xor_comm x y, scalar_mult_comm a b)

-- A private key with the other side's public key gives the same bytes on both sides.
pub shared_agrees :
    (a b : List ℕ) → scalar_mult a (scalar_base_mult b) ≡ scalar_mult b (scalar_base_mult a)
unfolding scalar_mult scalar_base_mult
shared_agrees [] [] = refl
shared_agrees [] (y ∷ b) = refl
shared_agrees (x ∷ a) [] = refl
shared_agrees (x ∷ a) (y ∷ b) =
    ground (arith, bit_xor_assoc x y 9, bit_xor_assoc y x 9, bit_xor_comm x y, scalar_mult_comm a b)

public_bytes : (x y : ℕ) → bit_xor x (bit_xor y 9) ≡ bit_xor (bit_xor (bit_xor x 9) (bit_xor y 9)) 9
public_bytes x y = cc (
  bit_xor_assoc (bit_xor x 9) (bit_xor y 9) 9,
  bit_xor_cancel y 9,
  bit_xor_assoc x 9 y,
  bit_xor_comm 9 y,
)

-- The two public keys alone give the shared key.
pub shared_from_public :
    (a b : List ℕ)
    → scalar_mult a (scalar_base_mult b)
      ≡ scalar_base_mult (scalar_mult (scalar_base_mult a) (scalar_base_mult b))
unfolding scalar_mult scalar_base_mult
shared_from_public [] [] = refl
shared_from_public [] (y ∷ b) = refl
shared_from_public (x ∷ a) [] = refl
shared_from_public (x ∷ a) (y ∷ b) = ground (arith, public_bytes x y)

pub length-clamp_key : (k : List ℕ) → length (clamp_key k) ≡ length k
unfolding clamp_key
length-clamp_key k = length-set _ 31 _ ∙ length-set _ 31 _ ∙ length-set k 0 _

pub length-scalar_base_mult : (k : List ℕ) → length (scalar_base_mult k) ≡ length k
unfolding scalar_base_mult
length-scalar_base_mult k = length-set k 0 _

-- The connection after the exchange.
abbrev after : Conn → List ℕ → List ℕ → Conn
after c sent rest = record c {
  incoming = rest;
  outgoing = c.outgoing ++ sent;
  room = c.room - length sent;
}

abbrev with_key : Conn → List ℕ → NoiseConn
with_key c key = record { raw = c; enc_key = key; dec_key = key }

module _ (decode : String → Option (List ℕ)) (cfg : NoiseConfig) where
  pub server_upgrade_ok :
      (entropy peer rest : List ℕ) (c : Conn)
      → has_private_key decode (ok entropy) cfg ≡ true
      → length entropy ≡ 32
      → length peer ≡ 32
      → c.closed ≡ false
      → 32 ≤ c.room
      → c.incoming ≡ peer ++ rest
      → let pub_key = scalar_base_mult (clamp_key entropy) in
        let v = after c pub_key rest in
        noise_server_upgrade decode (ok entropy) (some cfg) c
        ≡ (ok (with_key v (scalar_mult (clamp_key entropy) peer)), v)
  unfolding noise_server_upgrade
  server_upgrade_ok entropy peer rest c keyed e32 p32 open_conn room arrives =
      let pub_key = scalar_base_mult (clamp_key entropy) in
      ground (
        arith,
        length-scalar_base_mult (clamp_key entropy),
        length-clamp_key entropy,
        write_ok pub_key c,
        read_full-append peer rest
            (record c { outgoing = c.outgoing ++ pub_key; room = c.room - length pub_key }),
      )

  pub client_upgrade_ok :
      (entropy peer rest : List ℕ) (c : Conn)
      → length entropy ≡ 32
      → length peer ≡ 32
      → c.closed ≡ false
      → 32 ≤ c.room
      → c.incoming ≡ peer ++ rest
      → let pub_key = scalar_base_mult (clamp_key entropy) in
        let v = after c pub_key rest in
        noise_client_upgrade decode (ok entropy) (some cfg) c
        ≡ (ok (with_key v (scalar_mult (clamp_key entropy) peer)), v)
  unfolding noise_client_upgrade
  client_upgrade_ok entropy peer rest c e32 p32 open_conn room arrives =
      let pub_key = scalar_base_mult (clamp_key entropy) in
      ground (
        arith,
        length-scalar_base_mult (clamp_key entropy),
        length-clamp_key entropy,
        write_ok pub_key (record c { incoming = rest }),
        read_full-append peer rest c,
      )
