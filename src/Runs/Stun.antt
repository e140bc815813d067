-- ===== src/Runs/Stun.antt =====
-- A STUN response with one other attribute.
use rathole_pro.Prelude.{ℕ, ◌+◌, ◌≤◌, ◌≡◌, refl, List, [], ◌∷◌, ◌++◌, length, replicate, inl, arith}
use rathole_pro.Prelude.Words.{put_u16, put_u32}
use rathole_pro.P2p.{UdpAddr, address, parse_response}
use rathole_pro.P2p.Attributes.{Attribute, IsOther}
use rathole_pro.P2p.Response.{attributes_bytes, mapped_bytes, parse_response_ok}

abbrev software : Attribute
software = record { kind = 0x8022; size = 3; padded = 1 ∷ 2 ∷ 3 ∷ 0 ∷ [] }

abbrev reflected : UdpAddr
reflected = record { ip = 0xcb007105; port = 40000 }

abbrev response : List ℕ
response =
    put_u16 0x0101
    ++ (put_u16 20
        ++ (replicate 16 0
            ++ (attributes_bytes (software ∷ []) ++ (mapped_bytes 1 reflected ++ []))))

software-IsOther : IsOther software
software-IsOther = (omega arith, omega arith, refl, inl (λ e. omega arith))

response_fits : length response ≤ 256
unfolding put_u16 put_u32
response_fits = omega arith

attributes_fit : length (attributes_bytes (software ∷ [])) + 4 ≤ 20
unfolding put_u16
attributes_fit = omega arith

parse_response_ok_example : parse_response response ≡ address reflected
parse_response_ok_example =
    parse_response_ok 0x0101 20 1 (replicate 16 0) (software ∷ []) reflected [] response refl refl
      response_fits (omega arith) attributes_fit (software-IsOther, tt) (omega arith) (omega arith)
