-- ===== src/Common/Decimal/RoundTrip.antt =====
-- Reading a number back that was written.
use Prim.Native.Nat.{ℕ, zero, suc, ◌+◌, ◌/◌, ◌%◌, ◌<◌}
use mathlib.Core.Path.{◌≡◌, refl, ap, ◌∙◌}
use mathlib.Core.Logic.{inl, inr}
use mathlib.Core.Bool.{Bool, true, false}
use mathlib.Core.Option.{Option, none, some}
use mathlib.Core.List.{[], ◌∷◌, ◌++◌, append-nil}
use native.Mathlib.Omega.{arith}
use orbstrike.Common.Tests.{ltb, Bool-cases, Option-cases}
use orbstrike.Common.Lists.{All}
use orbstrike.Common.Int.{ℤ, pos, negsuc, IsInt64}
use orbstrike.Common.Texts.{Text}
use orbstrike.Common.Decimal.{
  emit, format_nat, format_int, is_digit, span_digits, value, in_range, digits_int, read_int, atoi,
  skip_space, strip_prefix, all_read, then_suffix, sscanf,
}

abbrev Digits : Text → Type 0
Digits = All (λ c. is_digit c ≡ true)

-- A text that does not go on with a digit.
abbrev pub Ends : Text → Type 0
Ends [] = Unit
Ends (c ∷ s) = is_digit c ≡ false

emit-Digits : (f n : ℕ) (out : Text) → Digits out → Digits (emit f n out)
unfolding emit
emit-Digits zero n out h = h
emit-Digits (suc f) n out h = elim (Bool-cases (ltb n 10)) [
  | inl small ↦ rw (small, emit) (ground arith, h)
  | inr big ↦ rw (big, emit) (emit-Digits f (n / 10) _ (ground arith, h))
]

value-emit : (f n : ℕ) (out : Text) → n < f → value 0 (emit f n out) ≡ value n out
unfolding emit value
value-emit zero n out h = elim h [ ]
value-emit (suc f) n out h = elim (Bool-cases (ltb n 10)) [
  | inl small ↦ rw (small, emit) (ap (λ m. value m out) (omega arith))
  | inr big ↦
      rw (big, emit)
        (value-emit f (n / 10) ((b'0' + n % 10) ∷ out) (ground arith)
          ∙ ap (λ m. value m out) (omega arith))
]

-- Writing puts at least one digit in front.
emit-cons : (f n : ℕ) (out : Text) → n < f → (c : ℕ) × (s : Text) × (emit f n out ≡ c ∷ s)
unfolding emit
emit-cons zero n out h = elim h [ ]
emit-cons (suc f) n out h = elim (Bool-cases (ltb n 10)) [
  | inl small ↦ (b'0' + n, out, rw (small, emit))
  | inr big ↦
      let (c, s, e) = emit-cons f (n / 10) ((b'0' + n % 10) ∷ out) (ground arith) in
      (c, s, rw (big, emit) e)
]

span_digits-append :
    (ds rest : Text) → Digits ds → Ends rest → span_digits (ds ++ rest) ≡ (ds, rest)
unfolding span_digits
span_digits-append [] [] h e = refl
span_digits-append [] (c ∷ rest) h e = ground arith
span_digits-append (d ∷ ds) rest h e = ground (arith, span_digits-append ds rest h.1 e)

-- What `read_int` needs to know of a number that was written.
record Written (n : ℕ) : Type 0 where
  head : ℕ
  tail : Text
  shape : format_nat n ≡ head ∷ tail
  digits : Digits (head ∷ tail)
  means : value 0 (head ∷ tail) ≡ n

written : (n : ℕ) → Written n
unfolding format_nat value
written n =
    let (c, s, e) = emit-cons (suc n) n [] (omega arith) in
    record {
      head = c;
      tail = s;
      shape = e;
      digits = rw e at (emit-Digits (suc n) n [] tt);
      means = rw e at (value-emit (suc n) n [] (omega arith));
    }

digits_int-Written :
    (minus : Bool) (n : ℕ) (rest : Text) (z : ℤ)
    → (w : Written n) → Ends rest
    → in_range minus n ≡ some z
    → digits_int minus (span_digits ((w.head ∷ w.tail) ++ rest)) ≡ some (z, rest)
unfolding digits_int
digits_int-Written minus n rest z w e r =
    rw (span_digits-append (w.head ∷ w.tail) rest w.digits e) (rw (w.means, digits_int) (rw r))

read_int-format_int :
    (z : ℤ) (rest : Text) → IsInt64 z → Ends rest → read_int (format_int z ++ rest) ≡ some (z, rest)
unfolding read_int format_int in_range
read_int-format_int (pos n) rest h e =
    let w = written n in
    rw w.shape (ground (arith, digits_int-Written false n rest (pos n) w e (ground arith)))
read_int-format_int (negsuc n) rest h e =
    let w = written (suc n) in
    rw w.shape (digits_int-Written true (suc n) rest (negsuc n) w e (ground arith))

-- strconv.Atoi reads back what Sprintf wrote with %d.
pub atoi-format_int : (z : ℤ) → IsInt64 z → atoi (format_int z) ≡ some z
unfolding atoi
atoi-format_int z h = rw (← append-nil (format_int z)) (rw (read_int-format_int z [] h tt))

strip_prefix-append : (p s : Text) → strip_prefix p (p ++ s) ≡ some s
unfolding strip_prefix
strip_prefix-append [] s = refl
strip_prefix-append (c ∷ p) s = ground (arith, strip_prefix-append p s)

-- A number that was written starts with a digit or a minus, never with white space.
skip_space-format_int :
    (z : ℤ) (rest : Text) → skip_space (format_int z ++ rest) ≡ format_int z ++ rest
unfolding skip_space format_int
skip_space-format_int (pos n) rest =
    let w = written n in let d = w.digits in rw w.shape (ground arith)
skip_space-format_int (negsuc n) rest = ground arith

-- Sscanf with a literal on either side of %d reads back what Sprintf wrote with the same literals;
-- the literal behind the number may be a part of the one that was written.
pub sscanf-format_int :
    (before after rest : Text) (z : ℤ)
    → IsInt64 z
    → Ends (after ++ rest)
    → sscanf before after (before ++ (format_int z ++ (after ++ rest))) ≡ some z
unfolding sscanf
sscanf-format_int before after rest z h e =
    rw (strip_prefix-append before (format_int z ++ (after ++ rest)), sscanf)
      (rw (skip_space-format_int z (after ++ rest)) (
        rw (read_int-format_int z (after ++ rest) h e)
          (rw (strip_prefix-append after rest, then_suffix))))

in_range-IsInt64 : (minus : Bool) (n : ℕ) (z : ℤ) → in_range minus n ≡ some z → IsInt64 z
unfolding in_range
in_range-IsInt64 false n z h = ground arith
in_range-IsInt64 true zero z h = ground arith
in_range-IsInt64 true (suc n) z h = ground arith

digits_int-IsInt64 :
    (minus : Bool) (p : Text × Text) (z : ℤ) (rest : Text)
    → digits_int minus p ≡ some (z, rest)
    → IsInt64 z
unfolding digits_int
digits_int-IsInt64 minus ([], rest') z rest h = cc
digits_int-IsInt64 minus (c ∷ ds, rest') z rest h =
    ground (arith, in_range-IsInt64 minus (value 0 (c ∷ ds)) z)

read_int-IsInt64 : (s : Text) (z : ℤ) (rest : Text) → read_int s ≡ some (z, rest) → IsInt64 z
unfolding read_int
read_int-IsInt64 [] z rest h = cc
read_int-IsInt64 (c ∷ s) z rest h = ground (
  arith,
  digits_int-IsInt64 true (span_digits s) z rest,
  digits_int-IsInt64 false (span_digits s) z rest,
  digits_int-IsInt64 false (span_digits (c ∷ s)) z rest,
)

all_read-some :
    (o : Option (ℤ × Text)) (z : ℤ) → all_read o ≡ some z → (rest : Text) × (o ≡ some (z, rest))
all_read-some none z h = cc
all_read-some (some (y, [])) z h = ([], ground arith)
all_read-some (some (y, c ∷ s)) z h = cc

-- What Atoi reads is an int64.
pub atoi-IsInt64 : (s : Text) (z : ℤ) → atoi s ≡ some z → IsInt64 z
unfolding atoi
atoi-IsInt64 s z h = let (rest, e) = all_read-some (read_int s) z h in read_int-IsInt64 s z rest e

then_suffix-some :
    (suffix : Text) (o : Option (ℤ × Text)) (z : ℤ)
    → then_suffix suffix o ≡ some z
    → (rest : Text) × (o ≡ some (z, rest))
then_suffix-some suffix none z h = cc
then_suffix-some suffix (some (y, rest)) z h = (
  rest,
  elim (Option-cases (strip_prefix suffix rest)) [
    | inl e ↦ ground arith
    | inr (t, e) ↦ ground arith
  ],
)

-- So is what Sscanf reads.
pub sscanf-IsInt64 : (before after s : Text) (z : ℤ) → sscanf before after s ≡ some z → IsInt64 z
unfolding sscanf
sscanf-IsInt64 before after s z h = elim (Option-cases (strip_prefix before s)) [
  | inl e ↦ ground arith
  | inr (rest, e) ↦
      let (r, q) = then_suffix-some after (read_int (skip_space rest)) z (rw (e, sscanf) at h) in
      read_int-IsInt64 (skip_space rest) z r q
]
