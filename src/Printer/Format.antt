-- ===== src/Printer/Format.antt =====
-- internal/printer/ata.go: `formatComma` and `formatCapacity`.
pub mod Comma
use go_smartmontools.Base.{
  ℕ, zero, suc, ◌+◌, ◌-◌, ◌/◌, ◌%◌, Bool, ◌&&◌, ◌==◌, ltb, leb, if◌then◌else◌, List, [], ◌∷◌, ◌++◌,
  length, Bytes, decimal, lit,
}

abbrev pub comma : ℕ
comma = b','

-- The loop over the digits: `len` is `len(s)`, and `i` the index of the next digit.
unfoldable pub comma_loop : ℕ → ℕ → Bytes → Bytes
comma_loop len i [] = []
comma_loop len i (c ∷ s) =
    let rest = c ∷ comma_loop len (suc i) s in
    if ltb 0 i && (len - i) % 3 == 0 then comma ∷ rest else rest

unfoldable pub format_comma : ℕ → Bytes
format_comma n = let s = decimal n in comma_loop (length s) 0 s

-- `format` stands for `fmt.Sprintf` of a quotient of float64s: `format p n d` is `n / d` with p
-- digits behind the point.
unfoldable pub format_capacity : (ℕ → ℕ → ℕ → Bytes) → ℕ → Bytes
format_capacity format bytes =
    if leb 1_000_000_000_000_000 bytes
    then format 1 bytes 1_000_000_000_000_000 ++ lit " PB"
    else if leb 1_000_000_000_000 bytes
    then format 1 bytes 1_000_000_000_000 ++ lit " TB"
    else if leb 1_000_000_000 bytes
    then format 0 bytes 1_000_000_000 ++ lit " GB"
    else decimal (bytes / 1_000_000) ++ lit " MB"
