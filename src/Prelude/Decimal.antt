-- ===== src/Prelude/Decimal.antt =====
-- strconv.FormatInt and strconv.ParseInt in base 10, over int64.
use Prim.Native.Nat.{ℕ, zero, suc, ◌+◌, ◌-◌, ◌*◌, ◌/◌, ◌%◌, ◌^◌, ◌<◌}
use mathlib.Core.Path.{◌≡◌, refl, ◌∙◌}
use mathlib.Core.Bool.{Bool, true, false, ◌&&◌, not}
use mathlib.Core.List.{[], ◌∷◌}
use mathlib.Core.Logic.{inl, inr}
use mathlib.Core.Option.{Option, none, some}
use native.Mathlib.Omega.{arith}
use ddbot_nexus.Prelude.Tests.{ltb, leb, ◌==◌, if◌then◌else◌, Bool-cases}
use ddbot_nexus.Prelude.Lists.{all}
use ddbot_nexus.Prelude.Texts.{Text, lacks}
use ddbot_nexus.Prelude.Int.{ℤ, pos, negsuc}

-- The fuel `n + 1` is enough for `n`, which loses a digit each round.
digits : ℕ → ℕ → Text → Text
digits zero n out = out
digits (suc f) n out =
    let rest = digits f (n / 10) ((b'0' + n % 10) ∷ out) in
    if ltb n 10 then (b'0' + n % 10) ∷ out else rest

unfoldable pub format_uint : ℕ → Text
unfolding digits
format_uint n = digits (suc n) n []

unfoldable pub format_int : ℤ → Text
unfolding format_uint
format_int (pos n) = format_uint n
format_int (negsuc n) = b'-' ∷ format_uint (suc n)

scan : Text → ℕ → Option ℕ
scan [] n = some n
scan (c ∷ s) n = if leb b'0' c && leb c b'9' then scan s (n * 10 + (c - b'0')) else none

-- A sign is taken off first; at least one digit must follow.
unsigned : Text → Option ℕ
unsigned [] = none
unsigned (c ∷ s) = scan (c ∷ s) 0

positive_in_range : Option ℕ → Option ℤ
positive_in_range none = none
positive_in_range (some n) = if ltb n (2 ^ 63) then some (pos n) else none

negative_in_range : Option ℕ → Option ℤ
negative_in_range none = none
negative_in_range (some zero) = some (pos zero)
negative_in_range (some (suc n)) = if ltb n (2 ^ 63) then some (negsuc n) else none

-- `none` stands for the errors ErrSyntax and ErrRange.
unfoldable pub parse_int : Text → Option ℤ
unfolding scan unsigned positive_in_range negative_in_range
parse_int [] = none
parse_int (c ∷ s) =
    if c == b'-'
    then negative_in_range (unsigned s)
    else if c == b'+'
    then positive_in_range (unsigned s)
    else positive_in_range (unsigned (c ∷ s))

-- The integers of 64 bits.
abbrev pub IsInt64 : ℤ → Type 0
IsInt64 (pos n) = n < 2 ^ 63
IsInt64 (negsuc n) = n < 2 ^ 63

scan-digits : (f n : ℕ) (out : Text) → n < f → scan (digits f n out) 0 ≡ scan out n
unfolding scan digits
scan-digits zero n out h = elim h [ ]
scan-digits (suc f) n out h = elim (Bool-cases (ltb n 10)) [
  | inl small ↦ ground arith
  | inr large ↦
      rw large (scan-digits f (n / 10) ((b'0' + n % 10) ∷ out) (ground arith) ∙ ground arith)
]

all-digits :
    (p : ℕ → Bool) (f n : ℕ) (out : Text)
    → ((d : ℕ) → d < 10 → p (b'0' + d) ≡ true)
    → all p out ≡ true
    → all p (digits f n out) ≡ true
unfolding digits
all-digits p zero n out h g = g
all-digits p (suc f) n out h g =
    let here : p (b'0' + n % 10) ≡ true = h (n % 10) (omega arith) in
    ground (arith, all-digits p f (n / 10) ((b'0' + n % 10) ∷ out) h (ground arith))

starts_with_digit : Text → Bool
starts_with_digit [] = false
starts_with_digit (c ∷ s) = leb b'0' c && leb c b'9'

digits_start :
    (f n : ℕ) (out : Text)
    → starts_with_digit out ≡ true
    → starts_with_digit (digits f n out) ≡ true
unfolding digits
digits_start zero n out h = h
digits_start (suc f) n out h =
    let here : starts_with_digit ((b'0' + n % 10) ∷ out) ≡ true =
      unfold starts_with_digit in ground arith in
    ground (arith, digits_start f (n / 10) ((b'0' + n % 10) ∷ out) here)

format_uint_start : (n : ℕ) → starts_with_digit (format_uint n) ≡ true
unfolding format_uint
format_uint_start n =
    let here : starts_with_digit ((b'0' + n % 10) ∷ []) ≡ true =
      unfold starts_with_digit in ground arith in
    ground (arith, digits_start n (n / 10) ((b'0' + n % 10) ∷ []) here)

unsigned_lem : (s : Text) → starts_with_digit s ≡ true → unsigned s ≡ scan s 0
unfolding unsigned starts_with_digit
unsigned_lem [] h = cc
unsigned_lem (c ∷ s) h = refl

parse_int_unsigned :
    (s : Text) → starts_with_digit s ≡ true → parse_int s ≡ positive_in_range (scan s 0)
unfolding parse_int starts_with_digit
parse_int_unsigned [] h = cc
parse_int_unsigned (c ∷ s) h = ground arith

scan-format_uint : (n : ℕ) → scan (format_uint n) 0 ≡ some n
unfolding format_uint
scan-format_uint n = scan-digits (suc n) n [] (omega arith) ∙ unfold scan in refl

-- Parsing undoes formatting, for every int64.
pub parse_int-format_int : (z : ℤ) → IsInt64 z → parse_int (format_int z) ≡ some z
unfolding format_int
parse_int-format_int (pos n) h =
    rw (parse_int_unsigned (format_uint n) (format_uint_start n), scan-format_uint n)
      (unfold positive_in_range in ground arith)
parse_int-format_int (negsuc n) h =
    unfold parse_int in
    rw (unsigned_lem (format_uint (suc n)) (format_uint_start (suc n)), scan-format_uint (suc n))
      (ground arith)

digit_not_colon : (d : ℕ) → d < 10 → not (b'0' + d == b':') ≡ true
digit_not_colon d h = ground arith

-- A formatted integer holds no colon, the separator of keys.
pub format_int-lacks : (z : ℤ) → lacks b':' (format_int z) ≡ true
unfolding format_int
format_int-lacks (pos n) = all-digits (λ c. not (c == b':')) (suc n) n [] digit_not_colon refl
format_int-lacks (negsuc n) =
    ground
      (arith, all-digits (λ (c : ℕ). not (c == b':')) (suc (suc n)) (suc n) [] digit_not_colon refl)
