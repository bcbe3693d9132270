-- ===== src/Common/Text/Decimal.antt =====
-- `strconv.Itoa` on a number that is not negative, and `strconv.Atoi`.
use localhoist.Common.Tests.{◌==◌, if◌then◌else◌, leb, ltb}
use localhoist.Common.Lists.{all}
use localhoist.Common.Equality.{Bytes}
use Prim.Native.Nat.{ℕ, zero, suc, ◌+◌, ◌-◌, ◌*◌, ◌/◌, ◌%◌, ◌<◌}
use mathlib.Core.Path.{◌≡◌, refl, ◌∙◌}
use mathlib.Core.Bool.{Bool, true, false, ◌&&◌}
use mathlib.Core.Logic.{◌≢◌}
use mathlib.Core.List.{[], ◌∷◌, ◌++◌}
use mathlib.Core.Option.{Option, none, some}
use native.Mathlib.Omega.{arith}

-- The digits, with fuel: each round divides by ten, so any number above the value is enough.
pub digits_of : ℕ → ℕ → Bytes
digits_of zero n = []
digits_of (suc fuel) n = elim (ltb n 10) [
  | true ↦ (48 + n) ∷ []
  | false ↦ digits_of fuel (n / 10) ++ (48 + n % 10) ∷ []
]

unfoldable pub itoa : ℕ → Bytes
unfolding digits_of
itoa n = digits_of (suc n) n

abbrev pub is_digit : ℕ → Bool
is_digit c = leb b'0' c && leb c b'9'

-- The value of a text of digits, onto that of the digits before it.
pub value_from : ℕ → Bytes → ℕ
value_from acc [] = acc
value_from acc (c ∷ s) = value_from (10 * acc + (c - 48)) s

-- An `int`, by sign and size. Zero has either sign.
pub record Number : Type 0 where
  pub negative : Bool
  pub size : ℕ

-- The bounds of `int`, which has 64 bits.
abbrev in_range : Bool → ℕ → Bool
in_range false n = ltb n 9223372036854775808
in_range true n = leb n 9223372036854775808

abbrev no_digits : Bytes → Bool
no_digits [] = true
no_digits (c ∷ s) = false

unfoldable pub unsigned : Bool → Bytes → Option Number
unfolding value_from
unsigned negative s =
    if no_digits s
    then none
    else if all is_digit s && in_range negative (value_from 0 s)
    then some (record { negative = negative; size = value_from 0 s })
    else none

-- `strconv.Atoi`: an optional sign, digits, and a value in range.
unfoldable pub atoi : Bytes → Option Number
unfolding unsigned
atoi [] = none
atoi (c ∷ s) =
    if c == b'-'
    then unsigned true s
    else if c == b'+'
    then unsigned false s
    else unsigned false (c ∷ s)

value_from-append :
    (acc : ℕ) (s : Bytes) (c : ℕ) → value_from acc (s ++ c ∷ []) ≡ 10 * value_from acc s + (c - 48)
unfolding value_from
value_from-append acc [] c = refl
value_from-append acc (d ∷ s) c = value_from-append (10 * acc + (d - 48)) s c

value_from-digits_of : (fuel n : ℕ) → n < fuel → value_from 0 (digits_of fuel n) ≡ n
unfolding digits_of value_from
value_from-digits_of zero n h = elim h [ ]
value_from-digits_of (suc fuel) n h = ground (
  arith,
  value_from-digits_of fuel (n / 10),
  value_from-append 0 (digits_of fuel (n / 10)) (48 + n % 10),
)

all-append : (s : Bytes) (c : ℕ) → all is_digit (s ++ c ∷ []) ≡ (all is_digit s && is_digit c)
all-append [] c = ground arith
all-append (d ∷ s) c = ground (arith, all-append s c)

pub digits_of-is_digit : (fuel n : ℕ) → all is_digit (digits_of fuel n) ≡ true
unfolding digits_of
digits_of-is_digit zero n = refl
digits_of-is_digit (suc fuel) n =
    ground
      (arith, digits_of-is_digit fuel (n / 10), all-append (digits_of fuel (n / 10)) (48 + n % 10))

concat-no_digits : (s : Bytes) (c : ℕ) → no_digits (s ++ c ∷ []) ≡ false
concat-no_digits [] c = refl
concat-no_digits (d ∷ s) c = refl

itoa-no_digits : (n : ℕ) → no_digits (itoa n) ≡ false
unfolding itoa
itoa-no_digits n = ground (arith, concat-no_digits (digits_of n (n / 10)) (48 + n % 10))

pub itoa-is_digit : (n : ℕ) → all is_digit (itoa n) ≡ true
unfolding itoa
itoa-is_digit n = digits_of-is_digit (suc n) n

value_from-itoa : (n : ℕ) → value_from 0 (itoa n) ≡ n
unfolding itoa
value_from-itoa n = value_from-digits_of (suc n) n (omega arith)

atoi_of_digits :
    (s : Bytes) → no_digits s ≡ false → all is_digit s ≡ true → atoi s ≡ unsigned false s
unfolding atoi
atoi_of_digits [] e h = cc
atoi_of_digits (c ∷ s) e h = ground arith

-- What `Itoa` prints, `Atoi` reads, up to the largest `int`.
pub atoi-itoa :
    (n : ℕ) → n < 9223372036854775808 → atoi (itoa n) ≡ some (record { negative = false; size = n })
unfolding unsigned
atoi-itoa n h =
    atoi_of_digits (itoa n) (itoa-no_digits n) (itoa-is_digit n)
    ∙ rw (itoa-no_digits n, itoa-is_digit n, value_from-itoa n) (ground arith)

ne-nil_of_no_digits : (s : Bytes) → no_digits s ≡ false → s ≢ []
ne-nil_of_no_digits [] h e = cc
ne-nil_of_no_digits (c ∷ s) h e = cc

pub itoa-ne-nil : (n : ℕ) → itoa n ≢ []
itoa-ne-nil n = ne-nil_of_no_digits (itoa n) (itoa-no_digits n)
