-- ===== src/Runs/Structures.antt =====
-- Structures of packets and payloads.
use meshcore_cpp_decoder.Common.{◌≡◌, refl, none, List, [], ◌∷◌, arith, Bytes, text, ok}
use meshcore_cpp_decoder.Hex.{hex_to_bytes}
use meshcore_cpp_decoder.Enums.{trace}
use meshcore_cpp_decoder.Packet.{DecodedPacket, decode}
use meshcore_cpp_decoder.Structure.Segment.{PayloadSegment}
use meshcore_cpp_decoder.Structure.Analysis.{payload_segments, analyze_structure}
use meshcore_cpp_decoder.Structure.Analysis.Parts.{Laid, payload_segments-Laid}
use meshcore_cpp_decoder.Structure.Agreement.{Agree, analyze_structure-Agree}
use meshcore_cpp_decoder.Runs.Sample.{sample_ssl}

-- An acknowledgement that is sent by flood, with a path of one hop.
abbrev bytes : Bytes
bytes = 0x0D ∷ 1 ∷ 0xAA ∷ 1 ∷ 2 ∷ 3 ∷ 4 ∷ []

spelled : hex_to_bytes (text "0D01AA01020304") ≡ ok bytes
unfolding hex_to_bytes text
spelled = refl

analyze_structure-Agree_example :
    (p : DecodedPacket) × (decode sample_ssl (text "0D01AA01020304") none ≡ ok p)
    × Agree bytes p (analyze_structure (λ d. text "0") (text "0D01AA01020304") none)
analyze_structure-Agree_example =
    analyze_structure-Agree sample_ssl none (λ d. text "0") (text "0D01AA01020304") bytes tt spelled
      (omega arith)

abbrev traced : Bytes
traced = 1 ∷ 2 ∷ 3 ∷ 4 ∷ 5 ∷ 6 ∷ 7 ∷ 8 ∷ 9 ∷ 10 ∷ 11 ∷ []

payload_segments-Laid_example :
    (segs : List PayloadSegment) × (payload_segments (λ d. text "0") trace traced ≡ ok segs)
    × Laid trace traced segs
payload_segments-Laid_example = payload_segments-Laid (λ d. text "0") trace traced
