-- ===== src/Ata/Identify/Text.antt =====
-- `ataString` against the way in which a drive stores a text: padded with spaces, and with the two
-- bytes of each word swapped.
use go_smartmontools.Base.{
  ℕ, zero, suc, ◌≡◌, ◌≢◌, ◌∙◌, refl, ap, arith, ◌==◌, ◌&&◌, [], ◌∷◌, ◌++◌, replicate, is_nil, Bytes,
  Bool-cases, inl, inr, if◌then◌else◌,
}
use go_smartmontools.Ata.Identify.{swap_pairs, trim_right, ata_string}

-- The last byte is no space.
abbrev pub IsTidy : Bytes → Type 0
IsTidy [] = Unit
IsTidy (b ∷ []) = b ≢ 0x20
IsTidy (b ∷ c ∷ rest) = IsTidy (c ∷ rest)

-- How a drive stores a text: of each word the second character first.
pub data Stored : Bytes → Bytes → Type 0 where
  no_words : Stored [] []
  next_word : (x y : ℕ) {s b : Bytes} → Stored s b → Stored (x ∷ y ∷ s) (y ∷ x ∷ b)

swap_pairs-Stored : {s b : Bytes} → Stored s b → swap_pairs b ≡ s
unfolding swap_pairs
swap_pairs-Stored no_words = refl
swap_pairs-Stored (next_word x y h) = ap (λ r. x ∷ y ∷ r) (swap_pairs-Stored h)

trim_right_step :
    (b : ℕ) (s : Bytes)
    → trim_right (b ∷ s) ≡ (if b == 0x20 && is_nil (trim_right s) then [] else b ∷ trim_right s)
unfolding trim_right
trim_right_step b s = refl

trim_right-cons :
    (b c : ℕ) (rest : Bytes)
    → trim_right (c ∷ rest) ≡ c ∷ rest
    → trim_right (b ∷ c ∷ rest) ≡ b ∷ c ∷ rest
trim_right-cons b c rest e = rw (trim_right_step b (c ∷ rest), e) (ground arith)

trim_right_tidy : (s : Bytes) → IsTidy s → trim_right s ≡ s
unfolding trim_right
trim_right_tidy [] h = refl
trim_right_tidy (b ∷ []) h = ground arith
trim_right_tidy (b ∷ c ∷ rest) h = trim_right-cons b c rest (trim_right_tidy (c ∷ rest) h)

trim_right-spaces : (n : ℕ) → trim_right (replicate n 0x20) ≡ []
unfolding trim_right
trim_right-spaces zero = refl
trim_right-spaces (suc n) = rw (trim_right-spaces n) refl

trim_right-append : (s : Bytes) (n : ℕ) → trim_right (s ++ replicate n 0x20) ≡ trim_right s
unfolding trim_right
trim_right-append [] n = trim_right-spaces n
trim_right-append (b ∷ s) n = rw (trim_right-append s n) refl

-- A text that does not end in a space, padded with spaces and stored word by word with the second
-- character of each word first, is read back.
pub ata_string-Stored :
    (s : Bytes) (n : ℕ) {b : Bytes} → IsTidy s → Stored (s ++ replicate n 0x20) b → ata_string b ≡ s
unfolding ata_string
ata_string-Stored s n tidy stored =
    ap trim_right (swap_pairs-Stored stored) ∙ trim_right-append s n ∙ trim_right_tidy s tidy

trim_if-IsTidy :
    (b : ℕ) (t : Bytes) → IsTidy t → IsTidy (if b == 0x20 && is_nil t then [] else b ∷ t)
trim_if-IsTidy b [] h = elim (Bool-cases (b == 0x20)) [
  | inl e ↦ rw e tt
  | inr e ↦ rw e (ground arith)
]
trim_if-IsTidy b (c ∷ t) h = elim (Bool-cases (b == 0x20)) [ inl e ↦ rw e h | inr e ↦ rw e h ]

trim_right-IsTidy : (s : Bytes) → IsTidy (trim_right s)
trim_right-IsTidy [] = unfold trim_right in tt
trim_right-IsTidy (b ∷ s) =
    rw (trim_right_step b s) (trim_if-IsTidy b (trim_right s) (trim_right-IsTidy s))

-- No text that `ataString` returns ends in a space.
pub ata_string-IsTidy : (b : Bytes) → IsTidy (ata_string b)
unfolding ata_string
ata_string-IsTidy b = trim_right-IsTidy (swap_pairs b)
