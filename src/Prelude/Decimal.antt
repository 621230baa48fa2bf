-- ===== src/Prelude/Decimal.antt =====
-- Numbers as Python prints and reads them: `str(n)` and `int(s)`, for the digits 0 to 9. A text with a
-- minus sign counts as no number.
use Prim.Native.Nat.{ℕ, zero, suc, ◌+◌, ◌-◌, ◌*◌, ◌/◌, ◌%◌, ◌≤◌, ◌<◌}
use mathlib.Core.Path.{◌≡◌, refl, ap, ◌∙◌}
use mathlib.Core.Logic.{inl, inr}
use mathlib.Core.Bool.{Bool, true, false, ◌&&◌}
use mathlib.Core.Option.{Option, none, some}
use mathlib.Core.List.{[], ◌∷◌, ◌++◌}
use native.Mathlib.Omega.{arith}
use waza.Prelude.Tests.{◌==◌, leb, ltb, if◌then◌else◌, Bool-cases}
use waza.Prelude.Lists.{All, All-append}
use waza.Prelude.Text.{Text, strip, lstrip, rstrip, is_space, is_nil}

-- The digits of a number; the fuel is above the number.
unfoldable digits : ℕ → ℕ → Text
digits zero n = []
digits (suc fuel) n =
    let more = digits fuel (n / 10) in
    if ltb n 10 then (48 + n) ∷ [] else more ++ ((48 + n % 10) ∷ [])

unfoldable pub show : ℕ → Text
unfolding digits
show n = digits (suc n) n

abbrev pub is_digit : ℕ → Bool
is_digit c = leb 48 c && leb c 57

-- A single underscore may stand between two digits; `after` says that a digit was just read.
unfoldable read_digits : ℕ → Bool → Text → Option ℕ
read_digits acc after [] = if after then some acc else none
read_digits acc after (c ∷ s) =
    let more = read_digits (acc * 10 + (c - 48)) true s in
    let skipped = read_digits acc false s in
    if is_digit c then more else if c == 95 && after then skipped else none

abbrev unsigned : Text → Text
unsigned [] = []
unsigned (c ∷ s) = if c == 43 then s else c ∷ s

unfoldable pub int_of : Text → Option ℕ
unfolding read_digits
int_of s = read_digits 0 false (unsigned (strip s))

IsDigit : ℕ → Type 0
IsDigit c = (48 ≤ c) × (c ≤ 57)

digits-All : (fuel n : ℕ) → All IsDigit (digits fuel n)
unfolding digits IsDigit
digits-All zero n = tt
digits-All (suc fuel) n = elim (Bool-cases (ltb n 10)) [
  | inl t ↦ rw t ((omega arith, ground arith), tt)
  | inr t ↦
      let one : All IsDigit ((48 + n % 10) ∷ []) = ((omega arith, omega arith), tt) in
      rw t (
        All-append IsDigit (digits fuel (n / 10)) ((48 + n % 10) ∷ []) (digits-All fuel (n / 10))
          one)
]

-- The value of digits that are read after others.
value : ℕ → Text → ℕ
value acc [] = acc
value acc (c ∷ s) = value (acc * 10 + (c - 48)) s

value-add : (acc : ℕ) (s : Text) (c : ℕ) → value acc (s ++ (c ∷ [])) ≡ value acc s * 10 + (c - 48)
unfolding value
value-add acc [] c = refl
value-add acc (d ∷ s) c = value-add (acc * 10 + (d - 48)) s c

value-digits : (fuel n : ℕ) → n < fuel → value 0 (digits fuel n) ≡ n
unfolding digits value
value-digits zero n h = absurd (omega arith)
value-digits (suc fuel) n h = elim (Bool-cases (ltb n 10)) [
  | inl t ↦ rw t (omega arith)
  | inr t ↦
      let less : n / 10 < fuel = ground (arith, t) in
      let rest = value-digits fuel (n / 10) less in
      rw (t, value-add 0 (digits fuel (n / 10)) (48 + n % 10), rest) (omega arith)
]

read-value : (acc : ℕ) (s : Text) → All IsDigit s → read_digits acc true s ≡ some (value acc s)
unfolding read_digits value IsDigit
read-value acc [] h = refl
read-value acc (c ∷ s) h =
    let t : is_digit c ≡ true = ground (arith, h.0) in rw t (read-value (acc * 10 + (c - 48)) s h.1)

digit_space : (c : ℕ) → IsDigit c → is_space c ≡ false
unfolding IsDigit is_space
digit_space c h = ground (arith, h)

and_last : (b : Bool) (c : ℕ) (s : Text) → (if b && false then [] else c ∷ s) ≡ c ∷ s
and_last true c s = refl
and_last false c s = refl

rstrip-digits : (s : Text) → All IsDigit s → rstrip s ≡ s
unfolding rstrip
rstrip-digits [] h = refl
rstrip-digits (c ∷ s) h = rw (rstrip-digits s h.1, digit_space c h.0) (and_last (is_nil s) c s)

strip-digits : (s : Text) → All IsDigit s → strip s ≡ s
unfolding strip lstrip
strip-digits [] h = rstrip-digits [] tt
strip-digits (c ∷ s) h = rw (digit_space c h.0) (rstrip-digits (c ∷ s) h)

-- `int` reads digits, of which there is at least one, as their value.
int_of-digits : (c : ℕ) (s : Text) → All IsDigit (c ∷ s) → int_of (c ∷ s) ≡ some (value 0 (c ∷ s))
unfolding int_of value IsDigit
int_of-digits c s h =
    let t : is_digit c ≡ true = ground (arith, h.0) in
    let plus : (c == 43) ≡ false = ground (arith, h.0) in
    rw (strip-digits (c ∷ s) h, plus, t) (read-value (0 * 10 + (c - 48)) s h.1)

int_of-some : (s : Text) → is_nil s ≡ false → All IsDigit s → int_of s ≡ some (value 0 s)
int_of-some [] e h = absurd (ground arith)
int_of-some (c ∷ s) e h = int_of-digits c s h

add_some : (s : Text) (c : ℕ) → is_nil (s ++ (c ∷ [])) ≡ false
add_some [] c = refl
add_some (d ∷ s) c = refl

digits_some : (fuel n : ℕ) → is_nil (digits (suc fuel) n) ≡ false
unfolding digits
digits_some fuel n = elim (Bool-cases (ltb n 10)) [
  | inl t ↦ rw t refl
  | inr t ↦ rw t (add_some (digits fuel (n / 10)) (48 + n % 10))
]

-- A number that is printed is read as itself.
pub int_of-show : (n : ℕ) → int_of (show n) ≡ some n
unfolding show
int_of-show n =
    int_of-some (digits (suc n) n) (digits_some n n) (digits-All (suc n) n)
    ∙ ap (λ v. some v) (value-digits (suc n) n (omega arith))

-- Nothing but digits is printed.
pub show-All : (n : ℕ) → All (λ c. (48 ≤ c) × (c ≤ 57)) (show n)
unfolding show IsDigit
show-All n = digits-All (suc n) n
