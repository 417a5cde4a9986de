-- ===== src/Addresses/Texts/Digits.antt =====
-- A number is read back from its digits.
use vpn_panel.Prelude.{
  ltb→lt, ℕ, zero, suc, ◌+◌, ◌-◌, ◌*◌, ◌/◌, ◌%◌, ◌<◌, String, ◌≡◌, refl, ◌∙◌, inl, inr, Bool, true,
  false, ◌&&◌, arith, ltb, leb, ◌==◌, if◌then◌else◌, Bool-cases,
}
use Prim.Native.Char.{code}
use Prim.Native.String.{◌++◌ as text_append}
use text.Mathlib.TextLemmas.{nil-append, cons-append}
use vpn_panel.Addresses.Texts.{digit, digits, show_ℕ}

-- the number that digits are read as, after those before
unfoldable pub value : ℕ → String → ℕ
value read String.[] = read
value read (String.◌∷◌ c s) = value (10 * read + (code c - 48)) s

unfoldable pub digits_only : String → Bool
digits_only String.[] = true
digits_only (String.◌∷◌ c s) = leb 48 (code c) && leb (code c) 57 && digits_only s

value-append : (read : ℕ) (s t : String) → value read (text_append s t) ≡ value (value read s) t
unfolding value
value-append read String.[] t = rw (nil-append t) refl
value-append read (String.◌∷◌ c s) t =
    rw (cons-append c s t) (value-append (10 * read + (code c - 48)) s t)

digits_only-append :
    (s t : String) → digits_only (text_append s t) ≡ (digits_only s && digits_only t)
unfolding digits_only
digits_only-append String.[] t = rw (nil-append t) refl
digits_only-append (String.◌∷◌ c s) t =
    rw (cons-append c s t) (ground (arith, digits_only-append s t))

value-digit : (read n : ℕ) → n < 10 → value read (digit n) ≡ 10 * read + n
unfolding value digit
value-digit read zero h = omega arith
value-digit read (suc zero) h = omega arith
value-digit read (suc (suc zero)) h = omega arith
value-digit read (suc (suc (suc zero))) h = omega arith
value-digit read (suc (suc (suc (suc zero)))) h = omega arith
value-digit read (suc (suc (suc (suc (suc zero))))) h = omega arith
value-digit read (suc (suc (suc (suc (suc (suc zero)))))) h = omega arith
value-digit read (suc (suc (suc (suc (suc (suc (suc zero))))))) h = omega arith
value-digit read (suc (suc (suc (suc (suc (suc (suc (suc zero)))))))) h = omega arith
value-digit read (suc (suc (suc (suc (suc (suc (suc (suc (suc zero))))))))) h = omega arith
value-digit read (suc (suc (suc (suc (suc (suc (suc (suc (suc (suc n)))))))))) h = ground (arith, h)

digits_only-if :
    (b : Bool) (s t : String)
    → digits_only s ≡ true
    → digits_only t ≡ true
    → digits_only (if b then s else t) ≡ true
digits_only-if true s t h k = h
digits_only-if false s t h k = k

digits_only-digit : (n : ℕ) → digits_only (digit n) ≡ true
unfolding digits_only digit
digits_only-digit n = digits_only-if (n == 0) "0" _ refl (
    digits_only-if (n == 1) "1" _ refl (
      digits_only-if (n == 2) "2" _ refl (
        digits_only-if (n == 3) "3" _ refl (
          digits_only-if (n == 4) "4" _ refl (
            digits_only-if (n == 5) "5" _ refl (
              digits_only-if (n == 6) "6" _ refl (
                digits_only-if (n == 7) "7" _ refl
                  (digits_only-if (n == 8) "8" _ refl (refl)))))))))

-- 10 to the number of digits that the fuel allows
abbrev pub limit_of : ℕ → ℕ
limit_of zero = 10
limit_of (suc fuel) = 10 * limit_of fuel

value-digits : (fuel n : ℕ) → n < limit_of fuel → value 0 (digits fuel n) ≡ n
unfolding digits
value-digits zero n h = value-digit 0 n h ∙ omega arith
value-digits (suc fuel) n h = elim (Bool-cases (ltb n 10)) [
  | inl one ↦ rw one (value-digit 0 n (ltb→lt n 10 one) ∙ omega arith)
  | inr more ↦
      rw
        (
          more,
          value-append 0 (digits fuel (n / 10)) (digit (n % 10)),
          value-digits fuel (n / 10) (omega (arith, h)),
          value-digit (n / 10) (n % 10) (omega arith),
        )
        (omega arith)
]

digits_only-digits : (fuel n : ℕ) → digits_only (digits fuel n) ≡ true
unfolding digits
digits_only-digits zero n = digits_only-digit n
digits_only-digits (suc fuel) n = ground (
  arith,
  digits_only-digits fuel (n / 10),
  digits_only-digit n,
  digits_only-digit (n % 10),
  digits_only-append (digits fuel (n / 10)) (digit (n % 10)),
)

-- the numbers of at most 21 digits
abbrev pub IsShown : ℕ → Type 0
IsShown n = n < limit_of 20

pub value-show_ℕ : (n : ℕ) → IsShown n → value 0 (show_ℕ n) ≡ n
unfolding show_ℕ
value-show_ℕ n h = value-digits 20 n h

pub digits_only-show_ℕ : (n : ℕ) → digits_only (show_ℕ n) ≡ true
unfolding show_ℕ
digits_only-show_ℕ n = digits_only-digits 20 n
