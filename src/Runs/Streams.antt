-- ===== src/Runs/Streams.antt =====
-- Lines of the stream.
use meshcore_cpp_decoder.Common.{
  ◌≡◌, refl, true, false, none, some, List, [], ◌∷◌, ◌++◌, arith, Bytes, Text, text, ok,
}
use meshcore_cpp_decoder.Hex.{is_hex_char, to_upper, bytes_to_hex}
use meshcore_cpp_decoder.Decoders.Advert.{trim}
use meshcore_cpp_decoder.Encoder.Advert.{is_empty}
use meshcore_cpp_decoder.Cli.{Settings, StreamState, cmd_stream}
use meshcore_cpp_decoder.Cli.Input.{behind_prefix, hex_from_rx_msg, is_bare_hex, packet_on}
use meshcore_cpp_decoder.Cli.Lines.{packet_on-forms}
use meshcore_cpp_decoder.Cli.RxMsg.{rx_bytes}
use meshcore_cpp_decoder.Cli.Stream.{Follows, cmd_stream-Follows}
use meshcore_cpp_decoder.Runs.Sample.{sample_ssl}
use meshcore_cpp_decoder.Runs.Signatures.{sample_evp}

abbrev settings : Settings
settings = record {
  store = none;
  json_output = false;
  show_structure = false;
  decode_rx_msg = true;
  quiet = false;
}

abbrev lines : List Text
lines = text "booting" ∷ text "  rx ok: 0D01AA01020304" ∷ text "rx msg: 0x0D, 0x0" ∷ []

legacy_run : packet_on true (text "rx msg: 0x0D, 0x0") ≡ some (text "0D00")
unfolding packet_on text is_empty behind_prefix trim hex_from_rx_msg is_hex_char to_upper
    is_bare_hex
legacy_run = refl

cmd_stream-Follows_example :
    (s : StreamState) × (cmd_stream sample_ssl sample_evp (λ d. text "0") (λ p. none) settings lines
      ≡ ok s)
    × Follows sample_ssl sample_evp (λ d. text "0") (λ p. none) settings lines s.output s.decoded
cmd_stream-Follows_example =
    cmd_stream-Follows sample_ssl sample_evp (λ d. text "0") (λ p. none) settings lines refl tt

abbrev acknowledged : Bytes
acknowledged = 0x0D ∷ 0 ∷ 1 ∷ 2 ∷ 3 ∷ 4 ∷ []

packet_on-forms_example :
    (packet_on false (text "rx ok: " ++ bytes_to_hex acknowledged)
      ≡ some (bytes_to_hex acknowledged))
    × (packet_on false (text "rx hex: " ++ bytes_to_hex acknowledged)
        ≡ some (bytes_to_hex acknowledged))
    × (packet_on false (bytes_to_hex acknowledged) ≡ some (bytes_to_hex acknowledged))
    × (packet_on true (text "rx msg:" ++ rx_bytes acknowledged) ≡ some (bytes_to_hex acknowledged))
packet_on-forms_example = packet_on-forms false acknowledged (omega arith) (omega arith)
