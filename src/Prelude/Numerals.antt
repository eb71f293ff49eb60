-- ===== src/Prelude/Numerals.antt =====
-- `n.toString(base)` of a JavaScript integer, and `BigInt(text)` and `Number(text)` on digits.
use Prim.Native.Nat.{ℕ, zero, suc, ◌+◌, ◌-◌, ◌*◌, ◌/◌, ◌%◌, ◌<◌}
use Prim.Native.Char.{Char, code}
use Prim.Native.String.{String, ◌∷◌, []}
use mathlib.Core.Path.{◌≡◌, refl, ap, ◌∙◌}
use mathlib.Core.Bool.{◌&&◌}
use mathlib.Core.Logic.{inl, inr}
use mathlib.Core.Option.{Option, none, some}
use native.Mathlib.Omega.{arith}
use grants_stack_indexer_v.Prelude.Tests.{ltb, leb, if◌then◌else◌, Bool-cases}

-- the digits up to 9
unfoldable pub digit_char : ℕ → Char
digit_char zero = "0"
digit_char (suc zero) = "1"
digit_char (suc (suc zero)) = "2"
digit_char (suc (suc (suc zero))) = "3"
digit_char (suc (suc (suc (suc zero)))) = "4"
digit_char (suc (suc (suc (suc (suc zero))))) = "5"
digit_char (suc (suc (suc (suc (suc (suc zero)))))) = "6"
digit_char (suc (suc (suc (suc (suc (suc (suc zero))))))) = "7"
digit_char (suc (suc (suc (suc (suc (suc (suc (suc zero)))))))) = "8"
digit_char _ = "9"

unfoldable pub digit_value : Char → Option ℕ
digit_value c = if leb b'0' (code c) && leb (code c) b'9' then some (code c - b'0') else none

-- the digits of a number in front of a text, with fuel
unfoldable pub digits_before : ℕ → ℕ → String → String
digits_before zero n text = text
digits_before (suc fuel) n text =
    let more = digits_before fuel (n / 10) (digit_char (n % 10) ∷ text) in
    if ltb n 10 then digit_char (n % 10) ∷ text else more

unfoldable pub to_string : ℕ → String
unfolding digits_before
to_string n = digits_before (suc n) n []

-- the empty text is 0
unfoldable pub read_digits : ℕ → String → Option ℕ
read_digits acc [] = some acc
read_digits acc (c ∷ text) = elim (digit_value c) [
  | none ↦ none
  | some d ↦ read_digits (acc * 10 + d) text
]

unfoldable pub big_int : String → Option ℕ
unfolding read_digits
big_int text = read_digits 0 text

pub digit_value-digit_char : (d : ℕ) → d < 10 → digit_value (digit_char d) ≡ some d
unfolding digit_value digit_char
digit_value-digit_char zero h = refl
digit_value-digit_char (suc zero) h = refl
digit_value-digit_char (suc (suc zero)) h = refl
digit_value-digit_char (suc (suc (suc zero))) h = refl
digit_value-digit_char (suc (suc (suc (suc zero)))) h = refl
digit_value-digit_char (suc (suc (suc (suc (suc zero))))) h = refl
digit_value-digit_char (suc (suc (suc (suc (suc (suc zero)))))) h = refl
digit_value-digit_char (suc (suc (suc (suc (suc (suc (suc zero))))))) h = refl
digit_value-digit_char (suc (suc (suc (suc (suc (suc (suc (suc zero)))))))) h = refl
digit_value-digit_char (suc (suc (suc (suc (suc (suc (suc (suc (suc zero))))))))) h = refl
digit_value-digit_char (suc (suc (suc (suc (suc (suc (suc (suc (suc (suc n)))))))))) h =
    absurd (omega arith)

read_digits-digit_char :
    (acc d : ℕ) (text : String)
    → d < 10
    → read_digits acc (digit_char d ∷ text) ≡ read_digits (acc * 10 + d) text
unfolding read_digits
read_digits-digit_char acc d text h = rw (read_digits, digit_value-digit_char d h) refl

read_digits-digits_before :
    (fuel n : ℕ) (text : String)
    → n < fuel
    → read_digits 0 (digits_before fuel n text) ≡ read_digits n text
unfolding digits_before
read_digits-digits_before zero n text h = absurd (omega arith)
read_digits-digits_before (suc fuel) n text h = elim (Bool-cases (ltb n 10)) [
  | inl small ↦ rw small (
      read_digits-digit_char 0 (n % 10) text (omega arith)
      ∙ ap (λ k. read_digits k text) (ground arith))
  | inr large ↦ rw large (
      read_digits-digits_before fuel (n / 10) (digit_char (n % 10) ∷ text) (ground arith)
      ∙ read_digits-digit_char (n / 10) (n % 10) text (omega arith)
      ∙ ap (λ k. read_digits k text) (omega arith))
]

pub big_int-to_string : (n : ℕ) → big_int (to_string n) ≡ some n
unfolding big_int to_string read_digits
big_int-to_string n = read_digits-digits_before (suc n) n [] (omega arith)
