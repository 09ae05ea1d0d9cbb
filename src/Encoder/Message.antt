-- ===== src/Encoder/Message.antt =====
-- The plaintext of the channel messages that `buildGroupTextPayload` builds, and how a reader takes it
-- apart.
use meshcore_cpp_decoder.Common.{
  ℕ, ◌^◌, ◌<◌, ◌≡◌, refl, ap, ◌∙◌, true, false, Option, some, [], ◌∷◌, ◌++◌, arith, le→ltb, length,
  replicate, All-append, Bytes, Text, IsByte, IsBytes,
}
use meshcore_cpp_decoder.Decoders.Words.{uint32_le, word_at-uint32_le, uint32_le-IsBytes}
use meshcore_cpp_decoder.Crypto.Channel.{
  DecryptionResult, has_char, is_sender, parse_sender, parse_plain,
}
use meshcore_cpp_decoder.Crypto.Channel.Parse.{parse_sender-front, until_nul-zeros}
use meshcore_cpp_decoder.Encoder.Group.{pad, group_text_of}
use meshcore_cpp_decoder.Encoder.Padding.{zeros-IsBytes, zeros_for, pad_lem}

-- The plaintext of a message.
abbrev pub plain_of : ℕ → ℕ → Text → Bytes
plain_of timestamp flags t = uint32_le timestamp ++ (flags ∷ t)

-- What is decrypted of a message.
abbrev pub result_of : ℕ → ℕ → Option Text → Text → DecryptionResult
result_of timestamp flags sender message = record {
  success = true;
  timestamp = timestamp;
  flags = flags;
  sender = sender;
  message = message;
  error = [];
}

parse_plain-pad :
    (timestamp flags : ℕ) (t : Text)
    → timestamp < 2 ^ 32
    → has_char 0 t ≡ false
    → parse_plain (pad (plain_of timestamp flags t))
      ≡ result_of timestamp flags (parse_sender t).0 (parse_sender t).1
unfolding parse_plain
parse_plain-pad timestamp flags t small no_nul =
    let n : ℕ = zeros_for (plain_of timestamp flags t) in
    let e = (pad_lem (plain_of timestamp flags t)).0 in
    let cut = until_nul-zeros t n no_nul in
    let word = word_at-uint32_le timestamp (flags ∷ (t ++ replicate n 0)) small in
    let long =
      le→ltb (length (plain_of timestamp flags t ++ replicate n 0)) 5
        (unfold uint32_le in omega arith) in
    ap parse_plain e ∙ rw long (unfold uint32_le in rw (word, cut))

has_char-append :
    (c : ℕ) (s t : Text) → has_char c s ≡ false → has_char c t ≡ false → has_char c (s ++ t) ≡ false
unfolding has_char
has_char-append c [] t hs ht = ht
has_char-append c (d ∷ s) t hs ht = ground (arith, has_char-append c s t)

-- What `buildGroupTextPayload` is given: a sender that a reader recognises, and texts without a zero.
pub record Message (sender message : Text) (timestamp flags : ℕ) : Type 0 where
  pub sender_fits : is_sender sender ≡ true
  pub sender_bytes : IsBytes sender
  pub sender_no_nul : has_char 0 sender ≡ false
  pub message_bytes : IsBytes message
  pub message_no_nul : has_char 0 message ≡ false
  pub timestamp_small : timestamp < 2 ^ 32
  pub flags_small : flags < 256

group_text_of-sender :
    (sender message : Text)
    → is_sender sender ≡ true
    → group_text_of sender message ≡ sender ++ (b':' ∷ b' ' ∷ message)
unfolding group_text_of is_sender
group_text_of-sender [] message h = absurd (ground arith)
group_text_of-sender (c ∷ s) message h = refl

group_text_no_nul :
    (sender message : Text)
    → has_char 0 sender ≡ false
    → has_char 0 message ≡ false
    → has_char 0 (sender ++ (b':' ∷ b' ' ∷ message)) ≡ false
unfolding has_char
group_text_no_nul sender message hs hm =
    has_char-append 0 sender (b':' ∷ b' ' ∷ message) hs (ground arith)

pub parse_plain-Message :
    (sender message : Text) (timestamp flags : ℕ)
    → Message sender message timestamp flags
    → parse_plain (pad (plain_of timestamp flags (group_text_of sender message)))
      ≡ result_of timestamp flags (some sender) message
parse_plain-Message sender message timestamp flags ok_args =
    let t : Text = sender ++ (b':' ∷ b' ' ∷ message) in
    let e : group_text_of sender message ≡ t =
      group_text_of-sender sender message ok_args.sender_fits in
    let found : parse_sender t ≡ (some sender, message) =
      parse_sender-front sender message ok_args.sender_fits in
    rw e (
      parse_plain-pad timestamp flags t ok_args.timestamp_small
        (group_text_no_nul sender message ok_args.sender_no_nul ok_args.message_no_nul)
      ∙ rw found)

pub plain-IsBytes :
    (sender message : Text) (timestamp flags : ℕ)
    → Message sender message timestamp flags
    → IsBytes (pad (plain_of timestamp flags (group_text_of sender message)))
plain-IsBytes sender message timestamp flags fits =
    let t : Text = sender ++ (b':' ∷ b' ' ∷ message) in
    let e : group_text_of sender message ≡ t =
      group_text_of-sender sender message fits.sender_fits in
    let n : ℕ = zeros_for (plain_of timestamp flags (group_text_of sender message)) in
    let text_bytes : IsBytes t =
      All-append IsByte sender (b':' ∷ b' ' ∷ message) fits.sender_bytes
        (omega arith, (omega arith, fits.message_bytes)) in
    rw (pad_lem (plain_of timestamp flags (group_text_of sender message))).0 (
      All-append IsByte (plain_of timestamp flags (group_text_of sender message)) (replicate n 0)
        (All-append IsByte (uint32_le timestamp) (flags ∷ group_text_of sender message)
          (uint32_le-IsBytes timestamp) (fits.flags_small, rw e text_bytes))
        (zeros-IsBytes n))
