-- ===== src/Cli/Input.antt =====
-- src/cli.cpp: the texts that the commands take as hexadecimal, the lines of a key file, and the packet on
-- a line of the stream.
use meshcore_cpp_decoder.Common.{
  ℕ, zero, suc, ◌%◌, Bool, true, false, not, ◌&&◌, ◌||◌, Option, none, some, List, [], ◌∷◌, ◌++◌,
  ltb, ◌==◌, if◌then◌else◌, length, Text, text,
}
use meshcore_cpp_decoder.Hex.{is_space, is_hex_char, to_upper}
use meshcore_cpp_decoder.Decoders.Advert.{trim}
use meshcore_cpp_decoder.Encoder.Advert.{is_empty}

-- The loop of `cleanHex`.
unfoldable pub without_spaces : Text → Text
without_spaces [] = []
without_spaces (c ∷ s) = if is_space c then without_spaces s else c ∷ without_spaces s

-- `Remove 0x prefix`
unfoldable pub without_prefix : Text → Text
without_prefix (a ∷ b ∷ s) = if a == b'0' && (b == b'x' || b == b'X') then s else a ∷ b ∷ s
without_prefix s = s

-- `cleanHex`
unfoldable pub clean_hex : Text → Text
unfolding without_spaces without_prefix
clean_hex hex = without_prefix (without_spaces hex)

-- `k.empty() || k[0] == '#'`
unfoldable pub is_comment : Text → Bool
is_comment [] = true
is_comment (c ∷ s) = c == b'#'

-- The loop of `loadKeyFile` over the lines of the file. `trim` of cli.cpp is the one of advert.cpp.
unfoldable pub key_lines : List Text → List Text
unfolding is_comment
key_lines [] = []
key_lines (line ∷ rest) =
    if is_comment (trim line) then key_lines rest else trim line ∷ key_lines rest

-- `std::isxdigit` in the C locale
unfoldable pub is_xdigit : ℕ → Bool
is_xdigit c = is_hex_char (to_upper c)

unfoldable pub all_xdigit : Text → Bool
unfolding is_xdigit
all_xdigit [] = true
all_xdigit (c ∷ s) = is_xdigit c && all_xdigit s

-- `isBareHex`
unfoldable pub is_bare_hex : Text → Bool
unfolding all_xdigit
is_bare_hex s = not (ltb (length s) 4) && length s % 2 == 0 && all_xdigit s

-- The inner loop of `hexFromRxMsg`: the digits, and what follows them.
unfoldable pub take_xdigits : Text → Text × Text
unfolding is_xdigit
take_xdigits [] = ([], [])
take_xdigits (c ∷ s) =
    let rest = take_xdigits s in if is_xdigit c then (c ∷ rest.0, rest.1) else ([], c ∷ s)

-- A token of one digit gets a zero in front, one of two is kept, and any other is left out.
unfoldable pub token_hex : Text → Text
token_hex (a ∷ []) = b'0' ∷ a ∷ []
token_hex (a ∷ b ∷ []) = a ∷ b ∷ []
token_hex other = []

-- The loop of `hexFromRxMsg` on fuel: the length of the line is enough, since each round takes a
-- character.
unfoldable pub rx_msg_loop : ℕ → Text → Text
unfolding take_xdigits token_hex
rx_msg_loop zero s = []
rx_msg_loop (suc f) [] = []
rx_msg_loop (suc f) (a ∷ []) = []
rx_msg_loop (suc f) (a ∷ b ∷ s) =
    let token = take_xdigits s in
    let behind = rx_msg_loop f token.1 in
    let next = rx_msg_loop f (b ∷ s) in
    if a == b'0' && (b == b'x' || b == b'X') then token_hex token.0 ++ behind else next

-- `hexFromRxMsg`
unfoldable pub hex_from_rx_msg : Text → Text
unfolding rx_msg_loop
hex_from_rx_msg line = rx_msg_loop (length line) line

-- What stands behind a prefix: `t.rfind(prefix, 0) == 0`, and `t.substr(prefix.size())`.
unfoldable pub behind_prefix : Text → Text → Option Text
behind_prefix [] s = some s
behind_prefix (p ∷ ps) [] = none
behind_prefix (p ∷ ps) (c ∷ s) = if c == p then behind_prefix ps s else none

-- `trim` of what stands behind a prefix, or what the other branches give.
unfoldable pub trimmed_or : Option Text → Text → Text
trimmed_or (some s) other = trim s
trimmed_or none other = other

unfoldable pub is_there : Option Text → Bool
is_there none = false
is_there (some s) = true

-- The last two branches: a legacy line, if they are decoded, and bare hexadecimal text.
unfoldable pub legacy_or_bare : Bool → Text → Text
unfolding is_there
legacy_or_bare decode_rx_msg t =
    if decode_rx_msg && is_there (behind_prefix (text "rx msg:") t)
    then hex_from_rx_msg t
    else if is_bare_hex t
    then t
    else []

-- The hexadecimal text that a trimmed line of the stream offers; empty for a line that offers none.
unfoldable pub offered : Bool → Text → Text
unfolding trimmed_or legacy_or_bare
offered decode_rx_msg t =
    trimmed_or (behind_prefix (text "rx ok: ") t)
      (trimmed_or (behind_prefix (text "rx hex: ") t) (legacy_or_bare decode_rx_msg t))

-- The packet on a line: `hex`, unless `hex.empty() || !isBareHex(hex)`.
unfoldable pub packet_on : Bool → Text → Option Text
unfolding offered
packet_on decode_rx_msg line =
    let hex = offered decode_rx_msg (trim line) in
    if is_empty hex || not (is_bare_hex hex) then none else some hex
