-- ===== src/Common/Decimal.antt =====
-- Decimal numbers as Go's fmt and strconv write and read them: the verb %d of Sprintf and Sscanf,
-- and strconv.Atoi on a 64-bit platform. The input of Sscanf is ASCII.
pub mod RoundTrip
use Prim.Native.Nat.{ℕ, zero, suc, ◌+◌, ◌-◌, ◌*◌, ◌/◌, ◌%◌, ◌^◌, ◌≤◌, ◌<◌}
use mathlib.Core.Path.{◌≡◌, refl, ap, ◌∙◌}
use mathlib.Core.Bool.{Bool, true, false, ◌&&◌, ◌||◌}
use mathlib.Core.Option.{Option, none, some}
use mathlib.Core.List.{List, [], ◌∷◌, ◌++◌, append_assoc, append-nil}
use native.Mathlib.Omega.{arith}
use orbstrike.Common.Tests.{ltb, leb, ◌==◌, if◌then◌else◌}
use orbstrike.Common.Lists.{length, All}
use orbstrike.Common.Int.{ℤ, pos, negsuc, pos_part, neg_part, IsInt64}
use orbstrike.Common.Texts.{Text}

unfoldable pub emit : (fuel n : ℕ) → Text → Text
emit zero n out = out
emit (suc f) n out = elim (ltb n 10) [
  | true ↦ (b'0' + n) ∷ out
  | false ↦ emit f (n / 10) ((b'0' + n % 10) ∷ out)
]

-- A number has fewer digits than its value, so the fuel never runs out.
unfoldable pub format_nat : ℕ → Text
unfolding emit
format_nat n = emit (suc n) n []

-- Sprintf("%d", z)
unfoldable pub format_int : ℤ → Text
unfolding format_nat
format_int (pos n) = format_nat n
format_int (negsuc n) = b'-' ∷ format_nat (suc n)

abbrev pub is_digit : ℕ → Bool
is_digit c = leb b'0' c && leb c b'9'

-- The digits in front of a text, and what follows them.
unfoldable pub span_digits : Text → Text × Text
span_digits [] = ([], [])
span_digits (c ∷ s) =
    let (ds, rest) = span_digits s in if is_digit c then (c ∷ ds, rest) else ([], c ∷ s)

unfoldable pub value : ℕ → Text → ℕ
value n [] = n
value n (c ∷ s) = value (n * 10 + (c - b'0')) s

abbrev signed : Bool → ℕ → ℤ
signed false n = pos n
signed true zero = pos 0
signed true (suc n) = negsuc n

-- The range check of strconv.ParseInt with 64 bits.
unfoldable pub in_range : Bool → ℕ → Option ℤ
in_range false n = if ltb n (2 ^ 63) then some (pos n) else none
in_range true n = if leb n (2 ^ 63) then some (signed true n) else none

-- An optional sign, at least one digit, and the rest.
unfoldable pub digits_int : Bool → Text × Text → Option (ℤ × Text)
unfolding in_range value
digits_int minus ([], rest) = none
digits_int minus (c ∷ ds, rest) = elim (in_range minus (value 0 (c ∷ ds))) [
  | none ↦ none
  | some z ↦ some (z, rest)
]

unfoldable pub read_int : Text → Option (ℤ × Text)
unfolding digits_int span_digits
read_int [] = none
read_int (c ∷ s) =
    if c == b'-'
    then digits_int true (span_digits s)
    else if c == b'+'
    then digits_int false (span_digits s)
    else digits_int false (span_digits (c ∷ s))

abbrev pub all_read : Option (ℤ × Text) → Option ℤ
all_read none = none
all_read (some (z, [])) = some z
all_read (some (z, c ∷ s)) = none

-- strconv.Atoi: nothing may follow the number.
unfoldable pub atoi : Text → Option ℤ
unfolding read_int
atoi s = all_read (read_int s)

-- The white space that %d skips; a newline ends the scan.
abbrev is_space : ℕ → Bool
is_space c = c == 32 || (c == 9 || (c == 11 || (c == 12 || c == 13)))

unfoldable pub skip_space : Text → Text
skip_space [] = []
skip_space (c ∷ s) = let rest = skip_space s in if is_space c then rest else c ∷ s

-- The literal text of a format.
unfoldable pub strip_prefix : Text → Text → Option Text
strip_prefix [] s = some s
strip_prefix (p ∷ ps) [] = none
strip_prefix (p ∷ ps) (c ∷ s) = if p == c then strip_prefix ps s else none

abbrev pub then_suffix : Text → Option (ℤ × Text) → Option ℤ
then_suffix suffix none = none
then_suffix suffix (some (z, rest)) = elim (strip_prefix suffix rest) [
  | none ↦ none
  | some r ↦ some z
]

-- Sscanf(s, before + "%d" + after, &z); what follows `after` in `s` is not read.
unfoldable pub sscanf : (before after : Text) → Text → Option ℤ
unfolding strip_prefix read_int skip_space
sscanf before after s = elim (strip_prefix before s) [
  | none ↦ none
  | some rest ↦ then_suffix after (read_int (skip_space rest))
]

sscanf_part :
    sscanf
      (b'g' ∷ b':' ∷ [])
      (b':' ∷ b'a' ∷ [])
      (b'g' ∷ b':' ∷ b'-' ∷ b'4' ∷ b'2' ∷ b':' ∷ b'a' ∷ b's' ∷ [])
    ≡ some (negsuc 41)
unfolding sscanf
sscanf_part = refl

format_42 : format_int (negsuc 41) ≡ b'-' ∷ b'4' ∷ b'2' ∷ []
unfolding format_int
format_42 = refl
