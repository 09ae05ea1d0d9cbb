-- ===== src/Common/Calls.antt =====
-- What a C++ call can do: return, throw, or touch memory that it does not own.
use Prim.Native.Nat.{ℕ, zero, suc, ◌+◌, ◌≤◌, ◌<◌}
use Prim.Native.Char.{code}
use Prim.Native.String.{String}
use mathlib.Core.Path.{◌≡◌, refl}
use mathlib.Core.Logic.{◌⊎◌, inl, inr}
use mathlib.Core.List.{List, [], ◌∷◌}
use mathlib.Core.Option.{none, some}
use mathlib.Core.Bool.{Bool, true, false}
use native.Mathlib.Omega.{arith}
use meshcore_cpp_decoder.Common.Tests.{leb, le→leb, if◌then◌else◌}
use meshcore_cpp_decoder.Common.Lists.{length, get_elem?, take, drop, All}

-- A `std::string` or a byte buffer is the list of its bytes; each is below 256.
abbrev pub Bytes : Type 0
Bytes = List ℕ

abbrev pub Text : Type 0
Text = List ℕ

abbrev pub IsByte : ℕ → Type 0
IsByte b = b < 256

abbrev pub IsBytes : Bytes → Type 0
IsBytes bs = All IsByte bs

-- The bytes of a literal, all of which are ASCII here. Shut, so that long messages stay folded.
unfoldable pub text : String → Text
text String.[] = []
text (String.◌∷◌ c s) = code c ∷ text s

-- `throws` carries the `what()` of a `std::exception`. `fault` is an access outside an object.
pub data Outcome {ℓ} (A : Type ℓ) : Type ℓ where
  ok : A → Outcome A
  throws : Text → Outcome A
  fault : Outcome A

-- A call after another: what throws or faults keeps the next from being made. The second form is for a
-- statement whose value is not used.
infixl 5 ◌>>=◌ ◌>>◌
abbrev pub ◌>>=◌ {κ ℓ} : {C : Type κ} {D : Type ℓ} → Outcome C → (C → Outcome D) → Outcome D
fault >>= next = fault
throws what >>= next = throws what
ok value >>= next = next value

abbrev pub ◌>>◌ {ℓ} : {D : Type ℓ} → Outcome (Unit {0}) → Outcome D → Outcome D
fault >> rest = fault
throws what >> rest = throws what
ok u >> rest = rest

-- `throw std::runtime_error(message)` if the test passes.
abbrev pub throw_if : Bool → Text → Outcome (Unit {0})
throw_if true e = throws e
throw_if false e = ok tt

-- `try { m } catch (const std::exception& e) { handler(e.what()) }`; a fault is not caught.
abbrev pub catch {ℓ} : {A : Type ℓ} → Outcome A → (Text → Outcome A) → Outcome A
catch (ok a) handler = ok a
catch (throws e) handler = handler e
catch fault handler = fault

-- A call that returns, and its result.
abbrev pub Returns {ℓ} : {A : Type ℓ} → Outcome A → Type 0
Returns (ok a) = Unit {0}
Returns (throws e) = ⊥
Returns fault = ⊥

pub Returns-ok {ℓ} : {A : Type ℓ} (m : Outcome A) → Returns m → (a : A) × (m ≡ ok a)
Returns-ok (ok a) h = (a, refl)
Returns-ok (throws e) h = absurd h
Returns-ok fault h = absurd h

-- `buf[i]`
unfoldable pub read : Bytes → ℕ → Outcome ℕ
read bs i = elim (get_elem? bs i) [ none ↦ fault | some b ↦ ok b ]

-- The bytes `buf[off]` to `buf[off + n - 1]`, as `bytesToHex(buf + off, n)` reads them.
unfoldable pub range : Bytes → ℕ → ℕ → Outcome Bytes
range bs off n = if leb (off + n) (length bs) then ok (take n (drop off bs)) else fault

abbrev pub get_or : Bytes → ℕ → ℕ
get_or [] i = 0
get_or (b ∷ bs) zero = b
get_or (b ∷ bs) (suc i) = get_or bs i

pub read_lem : (bs : Bytes) (i : ℕ) → i < length bs → read bs i ≡ ok (get_or bs i)
unfolding read
read_lem [] i h = absurd (omega arith)
read_lem (b ∷ bs) zero h = refl
read_lem (b ∷ bs) (suc i) h = read_lem bs i (omega arith)

pub range_lem :
    (bs : Bytes) (off n : ℕ) → off + n ≤ length bs → range bs off n ≡ ok (take n (drop off bs))
unfolding range
range_lem bs off n h = rw (le→leb (off + n) (length bs) h)

pub get_or-IsByte : (bs : Bytes) (i : ℕ) → IsBytes bs → IsByte (get_or bs i)
get_or-IsByte [] i h = omega arith
get_or-IsByte (b ∷ bs) zero (hb, h) = hb
get_or-IsByte (b ∷ bs) (suc i) (hb, h) = get_or-IsByte bs i h

pub drop-get_or : (bs : Bytes) (i : ℕ) → i < length bs → drop i bs ≡ get_or bs i ∷ drop (suc i) bs
drop-get_or [] i h = absurd (omega arith)
drop-get_or (b ∷ bs) zero h = refl
drop-get_or (b ∷ bs) (suc i) h = drop-get_or bs i (omega arith)

-- Outside the buffer.
pub read-fault : (bs : Bytes) (i : ℕ) → length bs ≤ i → read bs i ≡ fault
unfolding read
read-fault [] i h = refl
read-fault (b ∷ bs) zero h = absurd (omega arith)
read-fault (b ∷ bs) (suc i) h = read-fault bs i (omega arith)

pub range-fault : (bs : Bytes) (off n : ℕ) → length bs < off + n → range bs off n ≡ fault
unfolding range
range-fault bs off n h = let over : leb (off + n) (length bs) ≡ false = ground arith in rw over

-- A read never throws.
pub read-cases : (bs : Bytes) (i : ℕ) → ((b : ℕ) × (read bs i ≡ ok b)) ⊎ (read bs i ≡ fault)
unfolding read
read-cases [] i = inr refl
read-cases (b ∷ bs) zero = inl (b, refl)
read-cases (b ∷ bs) (suc i) = read-cases bs i

pub get_or-drop : (bs : Bytes) (k i : ℕ) → get_or bs (k + i) ≡ get_or (drop k bs) i
get_or-drop bs zero i = let e : zero + i ≡ i = omega arith in rw e
get_or-drop [] (suc k) zero = refl
get_or-drop [] (suc k) (suc i) = refl
get_or-drop (b ∷ bs) (suc k) i =
    let e : suc k + i ≡ suc (k + i) = omega arith in rw e (get_or-drop bs k i)

-- Inversion of a call after another.
pub >>=-ok {κ ℓ} :
    {C : Type κ} {D : Type ℓ} (m : Outcome C) (next : C → Outcome D) {d : D}
    → (m >>= next) ≡ ok d
    → (c : C) × (m ≡ ok c) × (next c ≡ ok d)
>>=-ok (ok c) next h = (c, refl, h)
>>=-ok (throws e) next h = cc
>>=-ok fault next h = cc

pub >>-ok {ℓ} :
    {D : Type ℓ} (m : Outcome (Unit {0})) (rest : Outcome D) {d : D}
    → (m >> rest) ≡ ok d
    → rest ≡ ok d
>>-ok (ok u) rest h = h
>>-ok (throws e) rest h = cc
>>-ok fault rest h = cc
