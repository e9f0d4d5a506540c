-- ===== src/Printer/General/Lines.antt =====
-- Where the lines of the general values end.
use go_smartmontools.Base.{
  ℕ, ◌%◌, ◌≡◌, ◌∙◌, refl, ap, arith, Bool, true, false, not, ◌==◌, if◌then◌else◌, [], ◌∷◌, ◌++◌,
  append_assoc, bit_and, bit_and-pow, Bytes, lit, hex0,
}
use go_smartmontools.Printer.General.{smart_capabilities}

-- The last byte is a line end.
abbrev pub ends_line : Bytes → Bool
ends_line [] = false
ends_line (b ∷ []) = b == 10
ends_line (b ∷ c ∷ s) = ends_line (c ∷ s)

ends_line-append : (s : Bytes) (b : ℕ) (t : Bytes) → ends_line (s ++ (b ∷ t)) ≡ ends_line (b ∷ t)
ends_line-append [] b t = refl
ends_line-append (x ∷ []) b t = refl
ends_line-append (x ∷ y ∷ s) b t = ends_line-append (y ∷ s) b t

-- The parts of the text behind the number.
flag_lines : Bool → Bool → Bytes
flag_lines saves auto =
    lit ")\t"
    ++ (if saves
        then lit "Saves SMART data before entering\n\t\t\t\t\tpower-saving mode.\n"
        else [])
    ++ (if auto then lit "\t\t\t\t\tSupports SMART auto save timer.\n" else [])

flag_lines-ends :
    (s : Bytes) (saves auto : Bool)
    → ends_line (s ++ flag_lines saves auto) ≡ (if saves then true else auto)
unfolding flag_lines lit
flag_lines-ends s true true = ends_line-append s _ _
flag_lines-ends s true false = ends_line-append s _ _
flag_lines-ends s false true = ends_line-append s _ _
flag_lines-ends s false false = ends_line-append s _ _

regroup : (x t a b : Bytes) → x ++ t ++ a ++ b ≡ x ++ (t ++ a ++ b)
regroup x t a b = ap (λ l. l ++ b) (append_assoc x t a) ∙ append_assoc x (t ++ a) b

smart_capabilities-flag_lines :
    (scap : ℕ)
    → smart_capabilities scap
      ≡ (lit "SMART capabilities:            (0x" ++ hex0 4 scap)
        ++ flag_lines (not (bit_and scap 1 == 0)) (not (bit_and scap 2 == 0))
unfolding smart_capabilities flag_lines
smart_capabilities-flag_lines scap =
    regroup (lit "SMART capabilities:            (0x" ++ hex0 4 scap) (lit ")\t") _ _

-- The text of the SMART capabilities ends with a line end exactly where bit 0 or bit 1 of the
-- capabilities is set.
pub smart_capabilities-ends_line :
    (scap : ℕ) → ends_line (smart_capabilities scap) ≡ not (scap % 4 == 0)
smart_capabilities-ends_line scap =
    ap ends_line (smart_capabilities-flag_lines scap)
    ∙ flag_lines-ends (lit "SMART capabilities:            (0x" ++ hex0 4 scap)
        (not (bit_and scap 1 == 0)) (not (bit_and scap 2 == 0))
    ∙ ground (arith, bit_and-pow 0 scap, bit_and-pow 1 scap)
