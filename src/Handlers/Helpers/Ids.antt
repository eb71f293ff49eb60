-- ===== src/Handlers/Helpers/Ids.antt =====
-- `getDonationId`, and the decimal texts that ids are made of.
use Prim.Native.Char.{Char}
use Prim.Native.String.{◌++◌ as ◌++ₛ◌, ◌∷◌ as ◌∷ₛ◌, [] as empty_text}
use text.Mathlib.TextLemmas.{cons-append, nil-append}
use grants_stack_indexer_v.Prelude.{
  ℕ, zero, suc, ◌+◌, ◌*◌, ◌/◌, ◌%◌, ◌<◌, ◌≡◌, refl, sym, ap, ◌∙◌, inl, inr, String, none, some,
  arith, ltb, Bool-cases,
}
use grants_stack_indexer_v.Prelude.Numerals.{
  to_string, digits_before, digit_char, digit_value, digit_value-digit_char, big_int,
  big_int-to_string,
}
use grants_stack_indexer_v.Handlers.Services.{Viem}
use grants_stack_indexer_v.Handlers.Helpers.{get_donation_id}

abbrev dash : Char
dash = "-"

-- reads the digits at the front of a text, and gives the rest
split_number : ℕ → String → ℕ × String
split_number acc empty_text = (acc, empty_text)
split_number acc (c ∷ₛ text) = elim (digit_value c) [
  | none ↦ (acc, c ∷ₛ text)
  | some d ↦ split_number (acc * 10 + d) text
]

split_number-digit_char :
    (acc d : ℕ) (text : String)
    → d < 10
    → split_number acc (digit_char d ∷ₛ text) ≡ split_number (acc * 10 + d) text
unfolding split_number
split_number-digit_char acc d text h = rw (split_number, digit_value-digit_char d h) refl

split_number-digits_before :
    (fuel n : ℕ) (text : String)
    → n < fuel
    → split_number 0 (digits_before fuel n text) ≡ split_number n text
unfolding digits_before
split_number-digits_before zero n text h = absurd (omega arith)
split_number-digits_before (suc fuel) n text h = elim (Bool-cases (ltb n 10)) [
  | inl small ↦ rw small (
      split_number-digit_char 0 (n % 10) text (omega arith)
      ∙ ap (λ k. split_number k text) (ground arith))
  | inr large ↦ rw large (
      split_number-digits_before fuel (n / 10) (digit_char (n % 10) ∷ₛ text) (ground arith)
      ∙ split_number-digit_char (n / 10) (n % 10) text (omega arith)
      ∙ ap (λ k. split_number k text) (omega arith))
]

digits_before-append :
    (fuel n : ℕ) (text more : String)
    → digits_before fuel n text ++ₛ more ≡ digits_before fuel n (text ++ₛ more)
unfolding digits_before
digits_before-append zero n text more = refl
digits_before-append (suc fuel) n text more = elim (Bool-cases (ltb n 10)) [
  | inl small ↦ rw small (cons-append (digit_char (n % 10)) text more)
  | inr large ↦ rw large (
      digits_before-append fuel (n / 10) (digit_char (n % 10) ∷ₛ text) more
      ∙ ap (digits_before fuel (n / 10)) (cons-append (digit_char (n % 10)) text more))
]

-- a decimal text in front of a dash is found again
split_number-to_string :
    (n : ℕ) (text : String) → split_number 0 (to_string n ++ₛ (dash ∷ₛ text)) ≡ (n, dash ∷ₛ text)
unfolding to_string split_number digit_value
split_number-to_string n text =
    ap (split_number 0) (
      digits_before-append (suc n) n empty_text (dash ∷ₛ text)
      ∙ ap (digits_before (suc n) n) (nil-append (dash ∷ₛ text)))
    ∙ split_number-digits_before (suc n) n (dash ∷ₛ text) (omega arith)

dashed :
    (block log_index : ℕ)
    → to_string block ++ₛ "-" ++ₛ to_string log_index
      ≡ to_string block ++ₛ (dash ∷ₛ to_string log_index)
dashed block log_index =
    ap (λ t. to_string block ++ₛ t)
      (cons-append dash empty_text (to_string log_index) ∙ ap (λ t. dash ∷ₛ t) (nil-append _))

to_string_injective : (m n : ℕ) → to_string m ≡ to_string n → m ≡ n
to_string_injective m n e = cc (sym (big_int-to_string m) ∙ ap big_int e ∙ big_int-to_string n)

tail_of : String → String
tail_of empty_text = empty_text
tail_of (c ∷ₛ text) = text

-- Where the hash tells the texts of two events apart, events with different blocks or log indices have
-- different donation ids.
pub get_donation_id_injective :
    (viem : Viem) (block log_index block' log_index' : ℕ)
    → (viem.keccak_of_text (to_string block ++ₛ "-" ++ₛ to_string log_index)
          ≡ viem.keccak_of_text (to_string block' ++ₛ "-" ++ₛ to_string log_index')
        → to_string block ++ₛ "-" ++ₛ to_string log_index
          ≡ to_string block' ++ₛ "-" ++ₛ to_string log_index')
    → get_donation_id viem block log_index ≡ get_donation_id viem block' log_index'
    → (block ≡ block') × (log_index ≡ log_index')
unfolding get_donation_id tail_of
get_donation_id_injective viem b l b' l' hash e =
    let same =
      sym (split_number-to_string b (to_string l))
      ∙ ap (split_number 0) (sym (dashed b l) ∙ hash e ∙ dashed b' l')
      ∙ split_number-to_string b' (to_string l') in
    (ap (λ r. r.0) same, to_string_injective l l' (ap (λ r. tail_of r.1) same))
