-- ===== src/Ata/Identify/Version.antt =====
-- `highestBit` against the binary logarithm.
use go_smartmontools.Base.{
  ℕ, zero, suc, ◌^◌, ◌≤◌, ◌<◌, ◌≡◌, ◌≢◌, refl, arith, bit_and, bit_and-pow, ◌==◌, Bool-cases, inl,
  inr,
}
use go_smartmontools.Ata.Identify.{highest_bit_from, highest_bit}
use native.Mathlib.Nat.{pow-suc, one-le-pow}

abbrev pub IsTopBit : ℕ → ℕ → Type 0
IsTopBit v p = (2 ^ p ≤ v) × (v < 2 ^ suc p)

-- Below 2 ^ (k + 1), the digit at k tells whether the number reaches 2 ^ k.
top_digit :
    (k v : ℕ)
    → v < 2 ^ suc k
    → ((bit_and v (2 ^ k) ≢ 0) → 2 ^ k ≤ v) × ((bit_and v (2 ^ k) ≡ 0) → v < 2 ^ k)
top_digit k v h = grind (arith, bit_and-pow k v, pow-suc 2 k, one-le-pow k 2)

highest_bit_from_lem :
    (i v : ℕ)
    → v < 2 ^ suc i
    → (2 ≤ v → IsTopBit v (highest_bit_from i v)) × (v < 2 → highest_bit_from i v ≡ 0)
unfolding highest_bit_from
highest_bit_from_lem zero v h = (λ two. absurd (omega arith), λ _. refl)
highest_bit_from_lem (suc i) v h = elim (Bool-cases (bit_and v (2 ^ suc i) == 0)) [
  | inl e ↦ rw e (highest_bit_from_lem i v ((top_digit (suc i) v h).1 (ground arith)))
  | inr e ↦
      let big : 2 ^ suc i ≤ v = (top_digit (suc i) v h).0 (ground arith) in
      rw e (λ _. (big, h), λ small. absurd (omega (arith, big, pow-suc 2 i, one-le-pow i 2)))
]

-- For a uint16 of at least 2, `highestBit` is the exponent of the highest power of 2 in it, counted
-- from 0: 2 ^ p ≤ v < 2 ^ (p + 1). For 0 and for 1 it is 0.
pub highest_bit-IsTopBit :
    (v : ℕ) → v < 2 ^ 16 → (2 ≤ v → IsTopBit v (highest_bit v)) × (v < 2 → highest_bit v ≡ 0)
unfolding highest_bit
highest_bit-IsTopBit v h = highest_bit_from_lem 15 v h
