-- ===== src/Crypto/Channel/Parse.antt =====
-- The text of a channel message: the sender in front of it, and the zeros behind it.
use meshcore_cpp_decoder.Common.{
  ℕ, zero, suc, ◌≡◌, refl, true, false, some, [], ◌∷◌, ◌++◌, arith, ◌==◌, replicate, Text,
}
use meshcore_cpp_decoder.Decoders.Advert.{until_nul}
use meshcore_cpp_decoder.Crypto.Channel.{has_char, split_colon, is_sender, sender_at, parse_sender}

split_colon-front :
    (s message : Text)
    → has_char b':' s ≡ false
    → split_colon (s ++ (b':' ∷ b' ' ∷ message)) ≡ some (s, message)
unfolding split_colon has_char
split_colon-front [] message h = refl
split_colon-front (c ∷ []) message h = ground (arith, split_colon-front [] message refl)
split_colon-front (c ∷ d ∷ s) message h =
    let here : (c == b':') ≡ false = ground arith in
    let there : has_char b':' (d ∷ s) ≡ false = ground arith in
    rw (here, split_colon-front (d ∷ s) message there)

is_sender-no_colon : (s : Text) → is_sender s ≡ true → has_char b':' s ≡ false
unfolding is_sender
is_sender-no_colon s h = ground arith

-- A sender that passes the test of `potentialSender`, a colon, a blank and a message: the sender and
-- the message are found again, whatever the message holds, a further ": " included.
pub parse_sender-front :
    (s message : Text)
    → is_sender s ≡ true
    → parse_sender (s ++ (b':' ∷ b' ' ∷ message)) ≡ (some s, message)
unfolding parse_sender sender_at
parse_sender-front s message h = rw (split_colon-front s message (is_sender-no_colon s h), h)

-- The zeros that pad a text without a zero of its own are cut off again.
pub until_nul-zeros : (s : Text) (n : ℕ) → has_char 0 s ≡ false → until_nul (s ++ replicate n 0) ≡ s
unfolding until_nul has_char
until_nul-zeros [] zero h = refl
until_nul-zeros [] (suc n) h = refl
until_nul-zeros (c ∷ s) n h =
    let here : (c == 0) ≡ false = ground arith in
    let there : has_char 0 s ≡ false = ground arith in rw (here, until_nul-zeros s n there)
