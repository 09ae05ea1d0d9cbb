-- ===== src/Crypto/Ed25519/Verdict.antt =====
-- What `verifyAdvertisementSignature` and `validateKeyPair` decide.
use meshcore_cpp_decoder.Common.{ℕ, ◌≡◌, ◌++◌, All-append, Bytes, IsByte, IsBytes, ok}
use meshcore_cpp_decoder.Hex.{bytes_to_hex}
use meshcore_cpp_decoder.Hex.RoundTrip.{hex_to_bytes-bytes_to_hex}
use meshcore_cpp_decoder.Decoders.Words.{uint32_le, uint32_le-IsBytes}
use meshcore_cpp_decoder.Crypto.Ed25519.{
  Ed25519Evp, construct_advert_signed_message, verdict, verify, verify_advertisement_signature,
}

module _ (evp : Ed25519Evp) where
  -- Of texts that `bytesToHex` has printed, the verdict on the bytes.
  pub verify_advertisement_signature_lem :
      (key signature app_data : Bytes) (timestamp : ℕ)
      → IsBytes key
      → IsBytes signature
      → IsBytes app_data
      → verify_advertisement_signature evp
          (bytes_to_hex key)
          (bytes_to_hex signature)
          timestamp
          (bytes_to_hex app_data)
        ≡ ok (verdict evp signature (key ++ (uint32_le timestamp ++ app_data)) key)
  unfolding verify_advertisement_signature construct_advert_signed_message verify
  verify_advertisement_signature_lem key signature app_data timestamp hk hs ha =
      let message = key ++ (uint32_le timestamp ++ app_data) in
      let hm =
        All-append IsByte key (uint32_le timestamp ++ app_data) hk
          (All-append IsByte (uint32_le timestamp) app_data (uint32_le-IsBytes timestamp) ha) in
      rw (
        hex_to_bytes-bytes_to_hex app_data ha,
        hex_to_bytes-bytes_to_hex key hk,
        hex_to_bytes-bytes_to_hex signature hs,
        hex_to_bytes-bytes_to_hex message hm,
      )
