-- ===== src/Cli/Stream.antt =====
-- What the command `stream` does with its lines.
use meshcore_cpp_decoder.Common.{
  ℕ, suc, ◌+◌, ◌≡◌, refl, sym, ap, ◌∙◌, ◌⊎◌, inl, inr, Bool, true, false, Option, none, some, List,
  [], ◌∷◌, ◌++◌, append-nil, append_assoc, arith, Bool-cases, Text, Outcome, ok, throws, ◌>>=◌,
}
use meshcore_cpp_decoder.Common.Int.{Double}
use meshcore_cpp_decoder.Decoders.GroupText.Safety.{StoreFits}
use meshcore_cpp_decoder.Crypto.OpenSsl.{OpenSsl}
use meshcore_cpp_decoder.Crypto.Ed25519.{Ed25519Evp}
use meshcore_cpp_decoder.Packet.{DecodedPacket}
use meshcore_cpp_decoder.Packet.Verification.{decode_with_verification}
use meshcore_cpp_decoder.Packet.Verification.Safety.{decode_with_verification-returns}
use meshcore_cpp_decoder.Cli.{
  Output, passed, report, failure, Settings, StreamState, pass, dump_json, structure_of,
  decode_and_print, stream_packet, stream_with, stream_loop, cmd_stream,
}
use meshcore_cpp_decoder.Cli.Input.{packet_on}

dump_json-cases :
    (json_output : Bool) (what : Option Text)
    → (dump_json json_output what ≡ ok tt)
      ⊎ ((e : Text) × (json_output ≡ true)
          × (what ≡ some e)
          × (dump_json json_output what ≡ throws e))
unfolding dump_json
dump_json-cases true none = inl refl
dump_json-cases true (some e) = inr (e, refl, refl, refl)
dump_json-cases false what = inl refl

module _ (ssl : OpenSsl) (evp : Ed25519Evp) (print_degrees : Double → Text)
    (dumped : DecodedPacket → Option Text) (settings : Settings) where
  -- What is printed for a packet: its report, or, as JSON, the error of the JSON library.
  pub data Printed (p : DecodedPacket) : Output → Type 0 where
    reported : Printed p (report p none)
    refused :
        (what : Text)
        → settings.json_output ≡ true
        → dumped p ≡ some what
        → Printed p (failure what)

  -- A stream of lines, what is printed for them, in their order, and how many packets they carry.
  pub data Follows : List Text → List Output → ℕ → Type 0 where
    ended : Follows [] [] 0
    passes :
        {lines : List Text} {out : List Output} {n : ℕ} (line : Text)
        → packet_on settings.decode_rx_msg line ≡ none
        → settings.quiet ≡ false
        → Follows lines out n
        → Follows (line ∷ lines) (passed line ∷ out) n
    drops :
        {lines : List Text} {out : List Output} {n : ℕ} (line : Text)
        → packet_on settings.decode_rx_msg line ≡ none
        → settings.quiet ≡ true
        → Follows lines out n
        → Follows (line ∷ lines) out n
    decodes :
        {lines : List Text} {out : List Output} {n : ℕ} (line hex : Text) (p : DecodedPacket)
        (o : Output)
        → packet_on settings.decode_rx_msg line ≡ some hex
        → decode_with_verification ssl evp hex settings.store ≡ ok p
        → Printed p o
        → Follows lines out n
        → Follows (line ∷ lines) (o ∷ out) (suc n)

  stream_packet_lem :
      (s : StreamState) (hex : Text)
      → settings.show_structure ≡ false
      → StoreFits settings.store
      → (p : DecodedPacket) × (o : Output) × (decode_with_verification ssl evp hex settings.store
          ≡ ok p)
        × Printed p o
        × (stream_packet ssl evp print_degrees dumped settings s hex
            ≡ ok (record { output = s.output ++ (o ∷ []); decoded = suc s.decoded }))
  unfolding stream_packet decode_and_print structure_of
  stream_packet_lem s hex plain fit =
      let (p, e) = decode_with_verification-returns ssl evp hex settings.store fit in
      elim (dump_json-cases settings.json_output (dumped p)) [
        | inl fine ↦ (p, report p none, e, reported, rw (e, plain, fine))
        | inr (what, json, bad, raised) ↦
            (p, failure what, e, refused what json bad, rw (e, plain, raised))
      ]

  -- A loop that ends, with what it adds to the output and to the count of `s`.
  abbrev Ends : StreamState → List Text → Outcome StreamState → Type 0
  Ends s lines m =
      (s' : StreamState) × (out : List Output) × (n : ℕ) × (m ≡ ok s')
      × (s'.output ≡ s.output ++ out)
      × (s'.decoded ≡ s.decoded + n)
      × Follows lines out n

  pass_quiet : (s : StreamState) (line : Text) → settings.quiet ≡ true → pass settings line s ≡ s
  unfolding pass
  pass_quiet s line q = rw q

  pass_loud :
      (s : StreamState) (line : Text)
      → settings.quiet ≡ false
      → pass settings line s ≡ record s { output = s.output ++ (passed line ∷ []) }
  unfolding pass
  pass_loud s line q = rw q

  -- One line in front of the others.
  line-Ends :
      (s : StreamState) (line : Text) (lines : List Text) (o : Option Text)
      → packet_on settings.decode_rx_msg line ≡ o
      → settings.show_structure ≡ false
      → StoreFits settings.store
      → ((t : StreamState)
          → Ends t lines (stream_loop ssl evp print_degrees dumped settings t lines))
      → Ends s (line ∷ lines) (
          stream_with ssl evp print_degrees dumped settings s line o
          >>= (λ t. stream_loop ssl evp print_degrees dumped settings t lines))
  unfolding stream_with
  line-Ends s line lines none e plain fit again = elim (Bool-cases settings.quiet) [
    | inl quiet ↦
        let (s', out, n, loop, shown, count, follows) = again s in
        (
          s',
          out,
          n,
          ap (λ t. stream_loop ssl evp print_degrees dumped settings t lines)
                (pass_quiet s line quiet)
              ∙ loop,
          shown,
          count,
          drops line e quiet follows,
        )
    | inr loud ↦
        let (s', out, n, loop, shown, count, follows) =
          again (record s { output = s.output ++ (passed line ∷ []) }) in
        (
          s',
          passed line ∷ out,
          n,
          ap (λ t. stream_loop ssl evp print_degrees dumped settings t lines)
                (pass_loud s line loud)
              ∙ loop,
          shown ∙ append_assoc s.output (passed line ∷ []) out,
          count,
          passes line e loud follows,
        )
  ]
  line-Ends s line lines (some hex) e plain fit again =
      let (p, o, decoded, printed, step) = stream_packet_lem s hex plain fit in
      let (s', out, n, loop, shown, count, follows) =
        again (record { output = s.output ++ (o ∷ []); decoded = suc s.decoded }) in
      (
        s',
        o ∷ out,
        suc n,
        rw step loop,
        shown ∙ append_assoc s.output (o ∷ []) out,
        omega arith,
        decodes line hex p o e decoded printed follows,
      )

  stream_loop-Ends :
      (s : StreamState) (lines : List Text)
      → settings.show_structure ≡ false
      → StoreFits settings.store
      → Ends s lines (stream_loop ssl evp print_degrees dumped settings s lines)
  unfolding stream_loop
  stream_loop-Ends s [] plain fit = (s, [], 0, refl, sym (append-nil s.output), omega arith, ended)
  stream_loop-Ends s (line ∷ lines) plain fit =
      line-Ends s line lines (packet_on settings.decode_rx_msg line) refl plain fit
        (λ t. stream_loop-Ends t lines plain fit)

  -- Without `--structure`, and with keys in the store of 16 to 32 bytes, the stream goes on to its last
  -- line whatever the lines are. In the order of the lines it prints each line that carries no packet as
  -- it is, or none of them if it is quiet, and for each packet the report of what
  -- `decodeWithVerification` returns, or in JSON the error of the JSON library; the count at the end is
  -- that of the lines that carry a packet.
  pub cmd_stream-Follows :
      (lines : List Text)
      → settings.show_structure ≡ false
      → StoreFits settings.store
      → (s : StreamState) × (cmd_stream ssl evp print_degrees dumped settings lines ≡ ok s)
        × Follows lines s.output s.decoded
  unfolding cmd_stream
  cmd_stream-Follows lines plain fit =
      let (s, out, n, loop, shown, count, follows) =
        stream_loop-Ends (record { output = []; decoded = 0 }) lines plain fit in
      let total : s.decoded ≡ n = omega arith in (s, loop, rw (shown, total) follows)
