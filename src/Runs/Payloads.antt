-- ===== src/Runs/Payloads.antt =====
-- The payload decoders.
use meshcore_cpp_decoder.Common.{
  ◌+◌, ◌≤◌, ◌<◌, ◌≡◌, ◌⊎◌, true, false, none, some, [], ◌∷◌, ◌++◌, arith, length, replicate, Bytes,
  text, ok,
}
use meshcore_cpp_decoder.Hex.{byte_to_hex, bytes_to_hex, number_to_hex, hex_to_bytes}
use meshcore_cpp_decoder.Enums.{request, response, text_message, anon_request}
use meshcore_cpp_decoder.Payloads.{
  RequestPayload, ResponsePayload, TextMessagePayload, AnonRequestPayload, PathPayload,
  TracePayload, ControlPayload, AdvertPayload, valid_base,
}
use meshcore_cpp_decoder.Decoders.Words.{word_at}
use meshcore_cpp_decoder.Decoders.Hashes.{hash_size, hash_count, concat}
use meshcore_cpp_decoder.Decoders.Request
use meshcore_cpp_decoder.Decoders.Response
use meshcore_cpp_decoder.Decoders.TextMessage
use meshcore_cpp_decoder.Decoders.AnonRequest
use meshcore_cpp_decoder.Decoders.Path
use meshcore_cpp_decoder.Decoders.Trace
use meshcore_cpp_decoder.Decoders.Trace.Fields as TraceFields
use meshcore_cpp_decoder.Decoders.Trace.Snr.{last_byte_snr}
use meshcore_cpp_decoder.Decoders.Control
use meshcore_cpp_decoder.Decoders.Control.Meaning as ControlMeaning
use meshcore_cpp_decoder.Decoders.Control.Shape as ControlShape
use meshcore_cpp_decoder.Decoders.Advert
use meshcore_cpp_decoder.Decoders.Advert.Meaning as AdvertMeaning
use meshcore_cpp_decoder.Decoders.Advert.Shape as AdvertShape

abbrev five : Bytes
five = 1 ∷ 2 ∷ 3 ∷ 4 ∷ 5 ∷ []

request_decode-lossless_example :
    ((5 < 4) × (Request.decode five ≡ ok Request.failed))
    ⊎ ((4 ≤ 5)
        × ((p : RequestPayload) × (Request.decode five ≡ ok p)
            × (p.base ≡ valid_base request)
            × (hex_to_bytes
                  (p.destination_hash ++ (p.source_hash ++ (p.cipher_mac ++ p.ciphertext)))
                ≡ ok five)))
request_decode-lossless_example = Request.request_decode-lossless five (omega arith)

response_decode-lossless_example :
    ((5 < 4) × (Response.decode five ≡ ok Response.failed))
    ⊎ ((4 ≤ 5)
        × ((p : ResponsePayload) × (Response.decode five ≡ ok p)
            × (p.base ≡ valid_base response)
            × (p.ciphertext_length + 4 ≡ 5)
            × (hex_to_bytes
                  (p.destination_hash ++ (p.source_hash ++ (p.cipher_mac ++ p.ciphertext)))
                ≡ ok five)))
response_decode-lossless_example = Response.response_decode-lossless five (omega arith)

text_message_decode-lossless_example :
    ((5 < 4) × (TextMessage.decode five ≡ ok TextMessage.failed))
    ⊎ ((4 ≤ 5)
        × ((p : TextMessagePayload) × (TextMessage.decode five ≡ ok p)
            × (p.base ≡ valid_base text_message)
            × (p.ciphertext_length + 4 ≡ 5)
            × (hex_to_bytes
                  (p.destination_hash ++ (p.source_hash ++ (p.cipher_mac ++ p.ciphertext)))
                ≡ ok five)))
text_message_decode-lossless_example = TextMessage.text_message_decode-lossless five (omega arith)

abbrev forty : Bytes
forty = 9 ∷ replicate 39 7

anon_request_decode-lossless_example :
    ((40 < 35) × (AnonRequest.decode forty ≡ ok AnonRequest.failed))
    ⊎ ((35 ≤ 40)
        × ((p : AnonRequestPayload) × (AnonRequest.decode forty ≡ ok p)
            × (p.base ≡ valid_base anon_request)
            × (p.ciphertext_length + 35 ≡ 40)
            × (hex_to_bytes
                  (p.destination_hash ++ (p.sender_public_key ++ (p.cipher_mac ++ p.ciphertext)))
                ≡ ok forty)))
anon_request_decode-lossless_example = AnonRequest.anon_request_decode-lossless forty (omega arith)

-- Two hashes of two bytes, the type and three bytes more.
abbrev returned : Bytes
returned = 1 ∷ 2 ∷ 3 ∷ 4 ∷ 5 ∷ 6 ∷ 7 ∷ 8 ∷ []

path_decode-lossless_example :
    ((8 < 5)
      × ((p : PathPayload) × (Path.decode (66 ∷ returned) ≡ ok p) × (p.base.is_valid ≡ false)))
    ⊎ ((5 ≤ 8)
        × ((p : PathPayload) × (Path.decode (66 ∷ returned) ≡ ok p)
            × (p.base.is_valid ≡ true)
            × (p.path_length ≡ 2)
            × (length p.path_hashes ≡ 2)
            × (hex_to_bytes (concat p.path_hashes ++ (byte_to_hex p.extra_type ++ p.extra_data))
                ≡ ok returned)))
unfolding hash_count hash_size
path_decode-lossless_example = Path.path_decode-lossless 66 returned (omega arith)

abbrev traced : Bytes
traced = 1 ∷ 2 ∷ 3 ∷ 4 ∷ 5 ∷ 6 ∷ 7 ∷ 8 ∷ 9 ∷ 10 ∷ 11 ∷ []

trace_decode-fields_example :
    ((11 < 9) × (Trace.decode traced none ≡ ok Trace.failed))
    ⊎ ((9 ≤ 11)
        × ((p : TracePayload) × (Trace.decode traced none ≡ ok p)
            × (p.trace_tag ≡ number_to_hex 0x04030201 8)
            × (p.auth_code ≡ 0x08070605)
            × (p.flags ≡ 9)
            × (hex_to_bytes (concat p.path_hashes) ≡ ok (10 ∷ 11 ∷ []))))
unfolding word_at
trace_decode-fields_example = TraceFields.trace_decode-fields traced none (omega arith)

trace_decode-snr_example :
    (p : TracePayload) × (Trace.decode traced
        (some (bytes_to_hex (20 ∷ []) ∷ bytes_to_hex (250 ∷ []) ∷ []))
      ≡ ok p)
    × (p.base.is_valid ≡ true)
    × (p.snr_values ≡ some (last_byte_snr (20 ∷ []) ∷ last_byte_snr (250 ∷ []) ∷ []))
trace_decode-snr_example =
    TraceFields.trace_decode-snr traced (20 ∷ []) ((250 ∷ []) ∷ []) (omega arith) (omega arith)

trace_decode-overflow_example :
    (p : TracePayload) × (Trace.decode traced
        (some (bytes_to_hex (20 ∷ []) ∷ bytes_to_hex (128 ∷ 0 ∷ 0 ∷ 0 ∷ []) ∷ []))
      ≡ ok p)
    × (p.base.is_valid ≡ false)
    × (p.base.errors ≡ text "stoi" ∷ [])
    × (p.snr_values ≡ none)
trace_decode-overflow_example =
    TraceFields.trace_decode-overflow traced ((20 ∷ []) ∷ []) (128 ∷ 0 ∷ 0 ∷ 0 ∷ []) []
      (omega arith) (omega arith) (omega arith)

-- A request for chat nodes and room servers.
abbrev asked : Bytes
asked = 0x81 ∷ 10 ∷ 1 ∷ 2 ∷ 3 ∷ 4 ∷ []

control_decode-Reads_example :
    (c : ControlPayload) × (Control.decode asked ≡ ok c) × ControlShape.Reads asked c
control_decode-Reads_example = ControlMeaning.control_decode-Reads asked (omega arith)

abbrev advertised : Bytes
advertised = replicate 100 1 ++ (0x81 ∷ 65 ∷ 66 ∷ [])

advert_decode-Reads_example :
    ((length advertised < 101)
      × ((a : AdvertPayload) × (Advert.decode advertised ≡ ok a)
          × (a.base.is_valid ≡ false)
          × (a.base.errors ≡ text "Advertisement payload too short" ∷ [])))
    ⊎ ((101 ≤ length advertised)
        × ((a : AdvertPayload) × (Advert.decode advertised ≡ ok a)
            × AdvertShape.Reads advertised a))
advert_decode-Reads_example = AdvertMeaning.advert_decode-Reads advertised (omega arith)
