-- ===== src/Base/Decimal.antt =====
-- The texts that `fmt` writes for numbers: `%d`, `%x`, and the widths that pad them.
use Prim.Native.Nat.{ℕ, zero, suc, ◌+◌, ◌-◌, ◌/◌, ◌%◌, ◌<◌, ◌≤◌}
use mathlib.Core.Path.{◌≡◌, refl}
use mathlib.Core.List.{List, [], ◌∷◌, ◌++◌}
use native.Mathlib.Omega.{arith}
use go_smartmontools.Base.Tests.{ltb, if◌then◌else◌, Bool-cases}
use go_smartmontools.Base.Lists.{length, replicate, All, All-append}
use mathlib.Core.Logic.{inl, inr}

-- The digits of a number to a base of at least 2, each written by `digit`; the fuel bounds their count.
unfoldable pub digits : (ℕ → ℕ) → ℕ → ℕ → ℕ → List ℕ
digits digit base zero n = []
digits digit base (suc f) n =
    let rest = digits digit base f (n / base) in
    if ltb n base then digit n ∷ [] else rest ++ (digit (n % base) ∷ [])

abbrev decimal_digit : ℕ → ℕ
decimal_digit d = b'0' + d

-- `%d`
unfoldable pub decimal : ℕ → List ℕ
unfolding digits
decimal n = digits decimal_digit 10 (suc n) n

-- `%x`, with the lower-case digits.
unfoldable pub hex : ℕ → List ℕ
unfolding digits
hex n = digits (λ d. if ltb d 10 then b'0' + d else b'a' + (d - 10)) 16 (suc n) n

-- `%wd` and `%ws`, `%-ws`, and `%0wx`.
unfoldable pub pad_left : ℕ → ℕ → List ℕ → List ℕ
pad_left c w s = replicate (w - length s) c ++ s

unfoldable pub pad_right : ℕ → List ℕ → List ℕ
pad_right w s = s ++ replicate (w - length s) b' '

unfoldable pub hex0 : ℕ → ℕ → List ℕ
unfolding hex pad_left
hex0 w n = pad_left b'0' w (hex n)

unfoldable pub dec_w : ℕ → ℕ → List ℕ
unfolding decimal pad_left
dec_w w n = pad_left b' ' w (decimal n)

digits_enough :
    (digit : ℕ → ℕ) (f g n : ℕ) → n < f → n < g → digits digit 10 f n ≡ digits digit 10 g n
unfolding digits
digits_enough digit zero g n p q = absurd (omega arith)
digits_enough digit (suc f) zero n p q = absurd (omega arith)
digits_enough digit (suc f) (suc g) n p q = elim (Bool-cases (ltb n 10)) [
  | inl e ↦ rw e refl
  | inr e ↦ rw (e, digits_enough digit f g (n / 10) (ground arith) (ground arith)) refl
]

-- The last digit of a decimal, and the digits before it.
pub decimal_step :
    (n : ℕ)
    → decimal n ≡ (if ltb n 10 then (b'0' + n) ∷ [] else decimal (n / 10) ++ ((b'0' + n % 10) ∷ []))
unfolding decimal
decimal_step n = elim (Bool-cases (ltb n 10)) [
  | inl e ↦ rw e refl
  | inr e ↦
      rw (e, digits_enough decimal_digit n (suc (n / 10)) (n / 10) (ground arith) (omega arith))
        refl
]

All-digits {κ} :
    (P : ℕ → Type κ) (digit : ℕ → ℕ) (base f n : ℕ)
    → ((d : ℕ) → P (digit d))
    → All P (digits digit base f n)
unfolding digits
All-digits P digit base zero n h = tt
All-digits P digit base (suc f) n h = elim (Bool-cases (ltb n base)) [
  | inl e ↦ rw e (h n, tt)
  | inr e ↦ rw e (
      All-append P (digits digit base f (n / base)) _ (All-digits P digit base f (n / base) h)
        (h (n % base), tt))
]

-- No character of a number comes before the digit 0.
abbrev pub IsLate : ℕ → Type 0
IsLate c = b'0' ≤ c

pub All-decimal : (n : ℕ) → All IsLate (decimal n)
unfolding decimal
All-decimal n = All-digits IsLate decimal_digit 10 (suc n) n λ d. omega arith

All-replicate {ℓ κ} : {A : Type ℓ} (P : A → Type κ) (n : ℕ) (a : A) → P a → All P (replicate n a)
All-replicate P zero a h = tt
All-replicate P (suc n) a h = (h, All-replicate P n a h)

All-hex : (n : ℕ) → All IsLate (hex n)
unfolding hex
All-hex n = All-digits IsLate _ 16 (suc n) n λ d. late d
  where
    late : (d : ℕ) → IsLate (if ltb d 10 then b'0' + d else b'a' + (d - 10))
    late d = ground arith

pub All-hex0 : (w n : ℕ) → All IsLate (hex0 w n)
unfolding hex0 pad_left
All-hex0 w n =
    All-append IsLate (replicate (w - length (hex n)) b'0') (hex n)
      (All-replicate IsLate (w - length (hex n)) b'0' (omega arith)) (All-hex n)
