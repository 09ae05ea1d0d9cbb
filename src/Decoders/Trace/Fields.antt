-- ===== src/Decoders/Trace/Fields.antt =====
-- The fields that the trace decoder fills, whatever the path of the packet holds.
use meshcore_cpp_decoder.Common.{
  ℕ, zero, suc, ◌+◌, ◌-◌, ◌≤◌, ◌<◌, ◌≡◌, refl, ap, ◌∙◌, ◌⊎◌, inl, inr, true, false, Option, none,
  some, List, [], ◌∷◌, ◌++◌, map, arith, ltb, ltb→lt, lt→ltb, ltb→le, le→ltb, Bool-cases, length,
  take, drop, All, length-drop, take-length, All-drop, Bytes, Text, IsByte, IsBytes, text, ok,
  get_or, read_lem, drop-get_or,
}
use meshcore_cpp_decoder.Hex.{byte_to_hex, bytes_to_hex, number_to_hex, hex_to_bytes}
use meshcore_cpp_decoder.Hex.RoundTrip.{hex_to_bytes-bytes_to_hex}
use meshcore_cpp_decoder.Enums.{trace}
use meshcore_cpp_decoder.Payloads.{TracePayload, valid_base, failed_base}
use meshcore_cpp_decoder.Decoders.Words.{read_uint32_le_lem, word_at}
use meshcore_cpp_decoder.Decoders.Hashes.{concat}
use meshcore_cpp_decoder.Decoders.Trace.{each_byte, failed, with_snr, decode, snr_of_path}
use meshcore_cpp_decoder.Decoders.Trace.Snr.{
  Fits, Overflows, last_byte_snr, snr_loop-Fits, snr_of_path-Overflows, snr_of_path-cases,
}

each_byte_lem :
    (payload : Bytes) (rounds offset : ℕ)
    → offset + rounds ≤ length payload
    → each_byte payload rounds offset ≡ ok (map byte_to_hex (take rounds (drop offset payload)))
unfolding each_byte
each_byte_lem payload zero offset h = refl
each_byte_lem payload (suc rounds) offset h =
    let next : offset + 1 ≡ suc offset = omega arith in
    rw (
      read_lem payload offset (omega arith),
      each_byte_lem payload rounds (offset + 1) (omega arith),
      next,
      drop-get_or payload offset (omega arith),
    )

concat-map : (bs : Bytes) → concat (map byte_to_hex bs) ≡ bytes_to_hex bs
unfolding bytes_to_hex
concat-map [] = refl
concat-map (b ∷ bs) = ap (λ t. byte_to_hex b ++ t) (concat-map bs)

-- What stands in the object when the loop over the path begins.
abbrev before_path : Bytes → TracePayload
before_path payload = record {
  base = valid_base trace;
  trace_tag = number_to_hex (word_at payload 0) 8;
  auth_code = word_at payload 4;
  flags = get_or payload 8;
  path_hashes = map byte_to_hex (drop 9 payload);
  snr_values = none;
}

decode_long :
    (payload : Bytes) (pd : Option (List Text))
    → 9 ≤ length payload
    → decode payload pd ≡ with_snr (before_path payload) pd
unfolding decode
decode_long payload pd h =
    let whole =
      take-length (length payload - 9) (drop 9 payload) (omega (arith, length-drop 9 payload)) in
    rw (
      le→ltb (length payload) 9 h,
      read_uint32_le_lem payload 0 (omega arith),
      read_uint32_le_lem payload 4 (omega arith),
      read_lem payload 8 (omega arith),
      each_byte_lem payload (length payload - 9) 9 (omega arith),
      whole,
    )

with_snr-keeps :
    (t : TracePayload) (pd : Option (List Text))
    → (p : TracePayload) × (with_snr t pd ≡ ok p)
      × (p.trace_tag ≡ t.trace_tag)
      × (p.auth_code ≡ t.auth_code)
      × (p.flags ≡ t.flags)
      × (p.path_hashes ≡ t.path_hashes)
unfolding with_snr
with_snr-keeps t pd = elim (snr_of_path-cases pd) [
  | inl (v, e) ↦
      (record t { base = valid_base trace; snr_values = v }, rw e, refl, refl, refl, refl)
  | inr (what, e) ↦ (record t { base = failed_base trace what }, rw e, refl, refl, refl, refl)
]

-- A trace payload of fewer than nine bytes is refused with an error. Of any other, whatever the path
-- of the packet holds, the decoder returns the tag, the authentication code and the flags at bytes
-- 0, 4 and 8, and hashes that spell all the bytes behind them; it never reads out of bounds.
pub trace_decode-fields :
    (payload : Bytes) (pd : Option (List Text))
    → IsBytes payload
    → ((length payload < 9) × (decode payload pd ≡ ok failed))
      ⊎ ((9 ≤ length payload)
          × ((p : TracePayload) × (decode payload pd ≡ ok p)
              × (p.trace_tag ≡ number_to_hex (word_at payload 0) 8)
              × (p.auth_code ≡ word_at payload 4)
              × (p.flags ≡ get_or payload 8)
              × (hex_to_bytes (concat p.path_hashes) ≡ ok (drop 9 payload))))
trace_decode-fields payload pd bytes = elim (Bool-cases (ltb (length payload) 9)) [
  | inl few ↦
      let short : length payload < 9 = ltb→lt (length payload) 9 few in
      inl (short, unfold decode in rw (lt→ltb (length payload) 9 short))
  | inr enough ↦
      let long : 9 ≤ length payload = ltb→le (length payload) 9 enough in
      inr (
        long,
        let (p, e, tag, auth, flags, hashes) = with_snr-keeps (before_path payload) pd in
            (
              p,
              decode_long payload pd long ∙ e,
              tag,
              auth,
              flags,
              rw (hashes, concat-map (drop 9 payload))
                  (hex_to_bytes-bytes_to_hex (drop 9 payload) (All-drop IsByte 9 payload bytes)),
            ),
      )
]

-- On a trace payload that is long enough, in a packet with a path of one or more hashes whose values
-- each fit an `int`, the decoder reads one signal-to-noise ratio for each hash, from its last byte,
-- and the payload is valid.
pub trace_decode-snr :
    (payload h : Bytes) (hs : List Bytes)
    → 9 ≤ length payload
    → All Fits (h ∷ hs)
    → (p : TracePayload) × (decode payload (some (map bytes_to_hex (h ∷ hs))) ≡ ok p)
      × (p.base.is_valid ≡ true)
      × (p.snr_values ≡ some (map last_byte_snr (h ∷ hs)))
unfolding with_snr snr_of_path valid_base
trace_decode-snr payload h hs long fits = (
  record (before_path payload) { snr_values = some (map last_byte_snr (h ∷ hs)) },
  decode_long payload (some (map bytes_to_hex (h ∷ hs))) long ∙ rw (snr_loop-Fits (h ∷ hs) fits),
  refl,
  refl,
)

-- A hash whose value does not fit an `int`, as of four bytes the first of which is 128 or more,
-- makes `std::stoi` throw: the trace payload is then reported as invalid with the error "stoi", and
-- has no ratios, though the payload itself is long enough and the hashes before it can be read.
pub trace_decode-overflow :
    (payload : Bytes) (before : List Bytes) (h : Bytes) (behind : List Bytes)
    → 9 ≤ length payload
    → All Fits before
    → Overflows h
    → (p : TracePayload) × (decode payload (some (map bytes_to_hex (before ++ (h ∷ behind))))
        ≡ ok p)
      × (p.base.is_valid ≡ false)
      × (p.base.errors ≡ text "stoi" ∷ [])
      × (p.snr_values ≡ none)
unfolding with_snr failed_base
trace_decode-overflow payload before h behind long fits over = (
  record (before_path payload) { base = failed_base trace (text "stoi") },
  decode_long payload (some (map bytes_to_hex (before ++ (h ∷ behind)))) long
      ∙ rw (snr_of_path-Overflows before h behind fits over),
  refl,
  refl,
  refl,
)

pub decode-total :
    (payload : Bytes) (pd : Option (List Text)) → (p : TracePayload) × (decode payload pd ≡ ok p)
unfolding decode
decode-total payload pd = elim (Bool-cases (ltb (length payload) 9)) [
  | inl short ↦ (failed, rw short)
  | inr long ↦
      let (p, e, _, _, _, _) = with_snr-keeps (before_path payload) pd in
      (p, decode_long payload pd (ltb→le (length payload) 9 long) ∙ e)
]
