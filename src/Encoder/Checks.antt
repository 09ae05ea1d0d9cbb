-- ===== src/Encoder/Checks.antt =====
-- What `buildPacket` refuses.
use meshcore_cpp_decoder.Common.{
  ℕ, ◌/◌, ◌%◌, ◌≤◌, ◌≡◌, ◌↔◌, true, false, ◌&&◌, Option, none, some, arith, length, Bytes,
}
use meshcore_cpp_decoder.Enums.{RouteType, PayloadType, PayloadVersion, is_transport}
use meshcore_cpp_decoder.Encoder.{refused, built, build_packet}

-- The arguments that pass every check.
abbrev pub Accepts : RouteType → Bytes → ℕ → Option (ℕ × ℕ) → Type 0
Accepts route path size codes =
    (1 ≤ size)
    × (size ≤ 4)
    × (length path % size ≡ 0)
    × (length path / size ≤ 63)
    × ((is_transport route && elim codes [ none ↦ true | some c ↦ false ]) ≡ false)

-- `buildPacket` succeeds exactly when the hash size is 1 to 4, the path is a whole number of at most
-- 63 hashes, and a transport route has its codes.
pub build_packet-success_iff :
    (route : RouteType) (kind : PayloadType) (payload path : Bytes) (size : ℕ)
    (codes : Option (ℕ × ℕ)) (version : PayloadVersion)
    → ((build_packet route kind payload path size codes version).success ≡ true)
      ↔ Accepts route path size codes
unfolding build_packet built refused
build_packet-success_iff route kind payload path size codes version =
    (λ h. ground (arith, h), λ (a, b, c, d, e). ground arith)
