-- ===== src/Prelude/Decimal.antt =====
-- `%d` of a number that is not negative: its decimal digits, and that they determine it.
use Prim.Native.Nat.{ℕ, zero, suc, ◌+◌, ◌-◌, ◌*◌, ◌/◌, ◌%◌, ◌≤◌, ◌<◌}
use mathlib.Core.Path.{◌≡◌, refl, ap, sym, ◌∙◌}
use mathlib.Core.List.{[], ◌∷◌, ◌++◌}
use mathlib.Core.Logic.{inl, inr}
use native.Mathlib.Omega.{arith}
use dns_flow.Prelude.Tests.{ltb, if◌then◌else◌, Bool-cases}
use dns_flow.Prelude.Bytes.{Text, All, All-append}

-- The fuel is above the number, and every round divides it by ten.
digits : ℕ → ℕ → Text
digits zero n = []
digits (suc f) n =
    let front = digits f (n / 10) in
    if ltb n 10 then (b'0' + n) ∷ [] else front ++ (b'0' + n % 10) ∷ []

unfoldable pub show : ℕ → Text
unfolding digits
show n = digits (suc n) n

abbrev pub IsDigit : ℕ → Type 0
IsDigit c = (b'0' ≤ c) × (c ≤ b'9')

value : ℕ → Text → ℕ
value acc [] = acc
value acc (c ∷ s) = value (acc * 10 + (c - b'0')) s

value-append : (acc : ℕ) (s t : Text) → value acc (s ++ t) ≡ value (value acc s) t
unfolding value
value-append acc [] t = refl
value-append acc (c ∷ s) t = value-append (acc * 10 + (c - b'0')) s t

value_last : (s : Text) (d : ℕ) → value 0 (s ++ (b'0' + d) ∷ []) ≡ value 0 s * 10 + d
unfolding value
value_last s d = rw (value-append 0 s) (omega arith)

value-digits : (f n : ℕ) → n < f → value 0 (digits f n) ≡ n
unfolding digits
value-digits zero n h = absurd (omega arith)
value-digits (suc f) n h = elim (Bool-cases (ltb n 10)) [
  | inl small ↦ rw small (unfold value in omega arith)
  | inr large ↦ rw (large, value_last) (ground (arith, value-digits f (n / 10)))
]

value-show : (n : ℕ) → value 0 (show n) ≡ n
unfolding show
value-show n = value-digits (suc n) n (omega arith)

pub show-injective : (m n : ℕ) → show m ≡ show n → m ≡ n
show-injective m n h = sym (value-show m) ∙ ap (value 0) h ∙ value-show n

digits-IsDigit : (f n : ℕ) → All IsDigit (digits f n)
unfolding digits
digits-IsDigit zero n = tt
digits-IsDigit (suc f) n = elim (Bool-cases (ltb n 10)) [
  | inl small ↦ rw small (ground arith)
  | inr large ↦
      rw large (All-append IsDigit (digits f (n / 10)) _ (digits-IsDigit f (n / 10)) (omega arith))
]

pub show-IsDigit : (n : ℕ) → All IsDigit (show n)
unfolding show
show-IsDigit n = digits-IsDigit (suc n) n
