-- ===== src/Base/Text.antt =====
-- `strings.ToLower`, on the native strings. It maps A-Z and leaves every other character, which is
-- what Go does on ASCII text; header keys are ASCII.
use Prim.Native.Nat.{ℕ, zero, suc, ◌-◌, ◌<◌}
use Prim.Native.Char.{Char, code}
use Prim.Native.String.{String, char_at}
use mathlib.Core.Path.{◌≡◌, refl, ap₂}
use mathlib.Core.Bool.{Bool, true, false, not, ◌&&◌}
use mathlib.Core.Logic.{inl, inr}
use native.Mathlib.Omega.{arith}
use triple.Base.Tests.{leb, if◌then◌else◌, Bool-cases}

abbrev lower_letters : String
lower_letters = "abcdefghijklmnopqrstuvwxyz"

abbrev is_upper : ℕ → Bool
is_upper n = leb b'A' n && leb n b'Z'

abbrev lower_char : Char → Char
lower_char c = if is_upper (code c) then char_at lower_letters (code c - b'A') else c

unfoldable pub to_lower : String → String
to_lower String.[] = String.[]
to_lower (String.◌∷◌ c s) = String.◌∷◌ (lower_char c) (to_lower s)

-- The numbers from 0 up to the bound, the bound left out, all pass the test.
passes_up_to : (ℕ → Bool) → ℕ → Bool
passes_up_to test zero = true
passes_up_to test (suc bound) = passes_up_to test bound && test bound

passes_at :
    (test : ℕ → Bool) (bound n : ℕ) → n < bound → passes_up_to test bound ≡ true → test n ≡ true
unfolding passes_up_to
passes_at test zero n below all = absurd (omega arith)
passes_at test (suc bound) n below all = ground (arith, passes_at test bound n)

is_lower_letter : ℕ → Bool
is_lower_letter n = not (is_upper (code (char_at lower_letters n)))

letters_table : passes_up_to is_lower_letter 26 ≡ true
unfolding passes_up_to is_lower_letter
letters_table = refl

letters_lower : (n : ℕ) → n < 26 → is_upper (code (char_at lower_letters n)) ≡ false
unfolding is_lower_letter
letters_lower n h = ground (arith, passes_at is_lower_letter 26 n h letters_table)

lower_char-not_upper : (c : Char) → is_upper (code (lower_char c)) ≡ false
lower_char-not_upper c = elim (Bool-cases (is_upper (code c))) [
  | inl u ↦ rw u (letters_lower (code c - b'A') (ground arith))
  | inr u ↦ rw u u
]

lower_char_idem : (c : Char) → lower_char (lower_char c) ≡ lower_char c
lower_char_idem c = rw (lower_char-not_upper c)

-- Lowering is idempotent.
pub to_lower_idem : (s : String) → to_lower (to_lower s) ≡ to_lower s
unfolding to_lower
to_lower_idem String.[] = refl
to_lower_idem (String.◌∷◌ c s) = ap₂ String.◌∷◌ (lower_char_idem c) (to_lower_idem s)
