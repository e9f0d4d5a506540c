-- ===== src/Ata/Attribute.antt =====
-- internal/ata/smart.go: one SMART attribute, its 48-bit raw value and its flags (the flag bits
-- are in internal/ata/ata.go).
use go_smartmontools.Base.{
  ℕ, ◌+◌, ◌*◌, ◌%◌, ◌/◌, ◌^◌, ◌<◌, ◌≡◌, refl, Bool, ◌==◌, not, arith, [], ◌∷◌, bit_and, bit_or,
  bit_or-shift, bit_and-pow, length, take, drop, get_or, All, Bytes, IsByte, byte, at, le_at,
  le_read_in, at_in, slice, slice_in, le_value, byte-lt, All-take, All-drop, le_at-take-drop, ◌∙◌,
  Result, ok, ◌>>=◌,
}
use go_smartmontools.Ata.Sector.{le16}

pub record Attribute : Type 0 where
  pub id : ℕ
  pub flags : ℕ
  pub current : ℕ
  pub worst : ℕ
  pub raw : Bytes

abbrev pub attr_flag_prefailure : ℕ
attr_flag_prefailure = 0x0001

abbrev pub attr_flag_online : ℕ
attr_flag_online = 0x0002

-- `uint64(b) << k`
abbrev shifted : ℕ → ℕ → ℕ
shifted b k = b * 2 ^ k % 2 ^ 64

unfoldable pub raw_value48 : Attribute → ℕ
raw_value48 a =
    let b = λ (i : ℕ). get_or a.raw i 0 in
    bit_or
      (bit_or
        (bit_or (bit_or (bit_or (b 0) (shifted (b 1) 8)) (shifted (b 2) 16)) (shifted (b 3) 24))
        (shifted (b 4) 32))
      (shifted (b 5) 40)

unfoldable pub is_prefailure : Attribute → Bool
is_prefailure a = not (bit_and a.flags attr_flag_prefailure == 0)

unfoldable pub is_online : Attribute → Bool
is_online a = not (bit_and a.flags attr_flag_online == 0)

-- One round of the attribute loop of `ParseSmartValues`.
unfoldable pub parse_attribute : Bytes → ℕ → Result Attribute
unfolding le16
parse_attribute d i = do
  let off = 2 + i * 12
  id ← at d off
  flags ← le16 d (off + 1)
  current ← at d (off + 3)
  worst ← at d (off + 4)
  raw ← slice d (off + 5) (off + 11)
  ok (record { id = id; flags = flags; current = current; worst = worst; raw = raw })

-- The attribute in slot i by positions.
unfoldable pub attribute_at : Bytes → ℕ → Attribute
attribute_at d i =
    let off = 2 + i * 12 in
    record {
      id = byte d off;
      flags = le_at 2 d (off + 1);
      current = byte d (off + 3);
      worst = byte d (off + 4);
      raw = take 6 (drop (off + 5) d);
    }

pub parse_attribute_lem :
    (d : Bytes) (i : ℕ) → length d ≡ 512 → i < 30 → parse_attribute d i ≡ ok (attribute_at d i)
unfolding parse_attribute attribute_at
parse_attribute_lem d i h hi =
    let off = 2 + i * 12 in
    rw
      (
        at_in d off (omega arith),
        le_read_in 2 d (off + 1) (omega arith),
        at_in d (off + 3) (omega arith),
        at_in d (off + 4) (omega arith),
        slice_in d (off + 5) (off + 11) 6 (omega arith) (omega arith),
      )
      refl

-- `|` of bytes in their places is their sum.
or_bytes :
    (a b c d e f : ℕ)
    → All IsByte (a ∷ b ∷ c ∷ d ∷ e ∷ f ∷ [])
    → bit_or
        (bit_or
          (bit_or (bit_or (bit_or a (shifted b 8)) (shifted c 16)) (shifted d 24))
          (shifted e 32))
        (shifted f 40)
      ≡ le_value (a ∷ b ∷ c ∷ d ∷ e ∷ f ∷ [])
unfolding le_value
or_bytes a b c d e f h = ground (
  arith,
  bit_or-shift 8 a b,
  bit_or-shift 16 (a + b * 2 ^ 8) c,
  bit_or-shift 24 (a + b * 2 ^ 8 + c * 2 ^ 16) d,
  bit_or-shift 32 (a + b * 2 ^ 8 + c * 2 ^ 16 + d * 2 ^ 24) e,
  bit_or-shift 40 (a + b * 2 ^ 8 + c * 2 ^ 16 + d * 2 ^ 24 + e * 2 ^ 32) f,
)

pub raw_value48-le_at : (a : Attribute) → All IsByte a.raw → raw_value48 a ≡ le_at 6 a.raw 0
unfolding raw_value48 le_at le_value byte
raw_value48-le_at a h =
    let b = λ (i : ℕ). byte a.raw i in
    or_bytes (b 0) (b 1) (b 2) (b 3) (b 4) (b 5) (
      omega (
        arith,
        byte-lt a.raw 0 h,
        byte-lt a.raw 1 h,
        byte-lt a.raw 2 h,
        byte-lt a.raw 3 h,
        byte-lt a.raw 4 h,
        byte-lt a.raw 5 h,
      ))

-- In a sector of bytes, the raw value of the attribute in slot i is the 48-bit little-endian
-- number at 7 + 12 i.
pub raw_value48-attribute_at :
    (d : Bytes) (i : ℕ) → All IsByte d → raw_value48 (attribute_at d i) ≡ le_at 6 d (2 + i * 12 + 5)
unfolding attribute_at
raw_value48-attribute_at d i h =
    let off = 2 + i * 12 + 5 in
    raw_value48-le_at (attribute_at d i) (All-take IsByte 6 _ (All-drop IsByte off d h))
    ∙ le_at-take-drop 6 6 off d (omega arith)

pub is_prefailure_lem : (a : Attribute) → is_prefailure a ≡ (a.flags % 2 == 1)
unfolding is_prefailure
is_prefailure_lem a = ground (arith, bit_and-pow 0 a.flags)

pub is_online_lem : (a : Attribute) → is_online a ≡ (a.flags / 2 % 2 == 1)
unfolding is_online
is_online_lem a = ground (arith, bit_and-pow 1 a.flags)
