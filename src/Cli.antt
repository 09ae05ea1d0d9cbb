-- ===== src/Cli.antt =====
-- src/cli.cpp: the commands `decode`, `stream` and `derive-key`. What is printed is modelled up to its
-- layout: a report names the packet and the structure that `decodeAndPrint` prints.
pub mod Input
pub mod Trim
pub mod RxMsg
pub mod Stream
pub mod Lines
use meshcore_cpp_decoder.Common.{
  ℕ, suc, Bool, true, false, not, ◌&&◌, Option, none, some, List, [], ◌∷◌, ◌++◌, map, ◌==◌,
  if◌then◌else◌, length, Text, Outcome, ok, throws, ◌>>=◌, ◌>>◌, catch,
}
use meshcore_cpp_decoder.Common.Int.{Double}
use meshcore_cpp_decoder.Hex.{is_space, is_hex_char, to_upper}
use meshcore_cpp_decoder.Decoders.Advert.{trim}
use meshcore_cpp_decoder.Encoder.Advert.{is_empty}
use meshcore_cpp_decoder.Crypto.OpenSsl.{OpenSsl}
use meshcore_cpp_decoder.Crypto.Ed25519.{Ed25519Evp, derive_public_key, validate_key_pair}
use meshcore_cpp_decoder.Crypto.KeyStore.{MeshCoreKeyStore, text_eq, no_keys, add_channel_secrets}
use meshcore_cpp_decoder.Packet.{DecodedPacket}
use meshcore_cpp_decoder.Packet.Verification.{decode_with_verification}
use meshcore_cpp_decoder.Structure.Analysis.{analyze_structure_with_verification}
use meshcore_cpp_decoder.Structure.Outline.{PacketStructure}
use meshcore_cpp_decoder.Cli.Input.{clean_hex, packet_on}

-- What the commands print: a line that is passed through, the report of a packet, or an error.
pub data Output : Type 0 where
  passed : Text → Output
  report : DecodedPacket → Option PacketStructure → Output
  failure : Text → Output

-- The options of the commands, and the store of the keys.
pub record Settings : Type 0 where
  pub store : Option MeshCoreKeyStore
  pub json_output : Bool
  pub show_structure : Bool
  pub decode_rx_msg : Bool
  pub quiet : Bool

pub record StreamState : Type 0 where
  pub output : List Output
  pub decoded : ℕ

-- `keys.empty() ? nullptr : &keyStore`
unfoldable pub store_of : OpenSsl → List Text → Option MeshCoreKeyStore
store_of ssl [] = none
store_of ssl (k ∷ ks) = some (add_channel_secrets ssl (k ∷ ks) no_keys)

-- `if (!packet.isValid) return 1`, which the JSON output does not do.
unfoldable pub exit_status : Bool → DecodedPacket → ℕ
exit_status json_output p = if not json_output && not p.is_valid then 1 else 0

-- `j.dump()` throws where `dumped` gives an error.
unfoldable pub dump_json : Bool → Option Text → Outcome (Unit {0})
dump_json true (some what) = throws what
dump_json json_output what = ok tt

-- The line goes out as it came, unless `quiet`.
unfoldable pub pass : Settings → Text → StreamState → StreamState
pass settings line s =
    if settings.quiet then s else record s { output = s.output ++ (passed line ∷ []) }

module _ (ssl : OpenSsl) (evp : Ed25519Evp) (print_degrees : Double → Text)
    (dumped : DecodedPacket → Option Text) where
  -- The structure, if it is asked for.
  unfoldable pub structure_of : Text → Settings → Outcome (Option PacketStructure)
  structure_of hex settings =
      if settings.show_structure
      then (do
        s ← analyze_structure_with_verification print_degrees hex settings.store
        ok (some s))
      else ok none

  -- `decodeAndPrint`: what it prints, and its result. `dumped` is the error of the JSON library for a
  -- packet whose texts it does not print.
  unfoldable pub decode_and_print : Text → Settings → Outcome (Output × ℕ)
  unfolding exit_status structure_of dump_json
  decode_and_print hex settings = do
    p ← decode_with_verification ssl evp hex settings.store
    structure ← structure_of hex settings
    dump_json settings.json_output (dumped p)
    ok (report p structure, exit_status settings.json_output p)

  -- `cmdDecode`
  unfoldable pub cmd_decode : Text → Settings → Outcome (Output × ℕ)
  unfolding clean_hex
  cmd_decode hex settings = decode_and_print (clean_hex hex) settings

  -- The `try` block of `cmdStream`, and `decoded++`.
  unfoldable pub stream_packet : Settings → StreamState → Text → Outcome StreamState
  stream_packet settings s hex = do
    out ←
        catch (do printed ← decode_and_print hex settings; ok printed.0) (λ what. ok (failure what))
    ok (record { output = s.output ++ (out ∷ []); decoded = suc s.decoded })

  unfoldable pub stream_with : Settings → StreamState → Text → Option Text → Outcome StreamState
  unfolding stream_packet pass
  stream_with settings s line none = ok (pass settings line s)
  stream_with settings s line (some hex) = stream_packet settings s hex

  -- The loop of `cmdStream` over the lines of the input.
  unfoldable pub stream_loop : Settings → StreamState → List Text → Outcome StreamState
  unfolding stream_with
  stream_loop settings s [] = ok s
  stream_loop settings s (line ∷ lines) = do
    s' ← stream_with settings s line (packet_on settings.decode_rx_msg line)
    stream_loop settings s' lines

  -- `cmdStream`; the number of packets is its last message.
  unfoldable pub cmd_stream : Settings → List Text → Outcome StreamState
  unfolding stream_loop
  cmd_stream settings lines = stream_loop settings (record { output = []; decoded = 0 }) lines

-- `cmdDeriveKey`: what it prints of the keys, and its result.
pub record DerivedKey : Type 0 where
  pub derived : Text
  pub matches : Option Bool

module _ (evp : Ed25519Evp) where
  -- `if (!validateKey.empty())`: the verdict on the expected key.
  unfoldable pub match_of : Bool → Text → Text → Text → Outcome (Option Bool)
  match_of json_output key derived [] = ok none
  match_of true key derived (c ∷ s) = do
    same ← validate_key_pair evp key (clean_hex (c ∷ s))
    ok (some same)
  match_of false key derived (c ∷ s) =
      ok (some (text_eq (map to_upper derived) (map to_upper (clean_hex (c ∷ s)))))

  -- Without JSON a key that does not match is a failure.
  unfoldable pub derive_status : Bool → Option Bool → ℕ
  derive_status false (some false) = 1
  derive_status json_output same = 0

  unfoldable pub cmd_derive_key : Text → Text → Bool → Outcome (Option DerivedKey × ℕ)
  unfolding clean_hex match_of derive_status
  cmd_derive_key private_key_hex validate_key json_output =
      if not (length (clean_hex private_key_hex) == 128)
      then ok (none, 1)
      else catch
          (do
            key ← derive_public_key evp (clean_hex private_key_hex)
            same ← match_of json_output (clean_hex private_key_hex) key validate_key
            ok (some (record { derived = key; matches = same }), derive_status json_output same))
          (λ what. ok (none, 1))
