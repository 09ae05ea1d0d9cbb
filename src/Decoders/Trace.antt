-- ===== src/Decoders/Trace.antt =====
-- src/decoder/payload_decoders/trace.cpp, `decode`.
pub mod Snr
pub mod Fields
use meshcore_cpp_decoder.Common.{
  ℕ, zero, suc, ◌+◌, ◌-◌, ◌*◌, ◌%◌, ◌^◌, ◌<◌, not, ◌&&◌, Option, none, some, List, [], ◌∷◌, ltb,
  if◌then◌else◌, length, Bytes, Text, text, Outcome, ok, throws, ◌>>=◌, ◌>>◌, catch, read,
}
use meshcore_cpp_decoder.Common.Int.{Double, signed8}
use meshcore_cpp_decoder.Hex.{byte_to_hex, number_to_hex, to_upper, is_hex_char, hex_value}
use meshcore_cpp_decoder.Enums.{trace}
use meshcore_cpp_decoder.Payloads.{TracePayload, valid_base, failed_base}
use meshcore_cpp_decoder.Decoders.Words.{read_uint32_le}

-- The value of the leading hexadecimal digits.
unfoldable pub hex_prefix : ℕ → Text → ℕ
hex_prefix acc [] = acc
hex_prefix acc (c ∷ s) =
    let more = hex_prefix (acc * 16 + hex_value (to_upper c)) s in
    if is_hex_char (to_upper c) then more else acc

-- `std::stoi(s, nullptr, 16)` on a text that begins with neither space, sign nor prefix: it throws
-- where no digit stands first, and where the value does not fit an `int`.
unfoldable pub stoi_hex : Text → Outcome ℕ
stoi_hex [] = throws (text "stoi")
stoi_hex (c ∷ s) =
    if is_hex_char (to_upper c)
    then if ltb (hex_prefix 0 (c ∷ s)) (2 ^ 31)
      then ok (hex_prefix 0 (c ∷ s))
      else throws (text "stoi")
    else throws (text "stoi")

-- The signal-to-noise ratio, in quarters of a dB, that a byte of the path stands for.
unfoldable pub snr_of_byte : ℕ → Double
snr_of_byte b = record { num = signed8 b; den = 4 }

-- One round of the loop over the path data.
unfoldable pub snr_of_hash : Text → Outcome Double
snr_of_hash hex_byte = do value ← stoi_hex hex_byte; ok (snr_of_byte (value % 256))

unfoldable pub snr_loop : List Text → Outcome (List Double)
snr_loop [] = ok []
snr_loop (h ∷ hs) = do snr ← snr_of_hash h; rest ← snr_loop hs; ok (snr ∷ rest)

-- `pathData.has_value() && !pathData->empty()`, and the loop.
unfoldable pub snr_of_path : Option (List Text) → Outcome (Option (List Double))
snr_of_path none = ok none
snr_of_path (some []) = ok none
snr_of_path (some (h ∷ hs)) = do values ← snr_loop (h ∷ hs); ok (some values)

-- `while (offset < len)`: `rounds` bytes are left from `offset` on.
unfoldable pub each_byte : Bytes → ℕ → ℕ → Outcome (List Text)
each_byte payload zero offset = ok []
each_byte payload (suc rounds) offset = do
  b ← read payload offset
  rest ← each_byte payload rounds (offset + 1)
  ok (byte_to_hex b ∷ rest)

unfoldable pub failed : TracePayload
failed = record {
  base =
      failed_base trace
        (text "Trace payload too short (need at least tag(4) + auth(4) + flags(1))");
  trace_tag = text "00000000";
  auth_code = 0;
  flags = 0;
  path_hashes = [];
  snr_values = none;
}

-- The `try` block: what stands in the object when the loop over the path throws stays there.
unfoldable pub with_snr : TracePayload → Option (List Text) → Outcome TracePayload
with_snr t path_data =
    catch
      (do
        values ← snr_of_path path_data
        ok (record t { base = valid_base trace; snr_values = values }))
      (λ what. ok (record t { base = failed_base trace what }))

-- `TracePayloadDecoder::decode`
unfoldable pub decode : Bytes → Option (List Text) → Outcome TracePayload
decode payload path_data = if ltb (length payload) 9 then ok failed else do
  tag ← read_uint32_le payload 0
  auth ← read_uint32_le payload 4
  flag_byte ← read payload 8
  hashes ← each_byte payload (length payload - 9) 9
  with_snr
      (record {
        base = valid_base trace;
        trace_tag = number_to_hex tag 8;
        auth_code = auth;
        flags = flag_byte;
        path_hashes = hashes;
        snr_values = none;
      })
      path_data
