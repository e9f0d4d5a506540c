-- ===== src/Ata/Identify.antt =====
-- internal/ata/identify.go: IDENTIFY DEVICE (`IdentifyInfo`, `ParseIdentify`, `ataString`,
-- `highestBit`). `strings.TrimRight(s, " ")` drops the spaces at the end.
pub mod Text
pub mod Version
pub mod Fields
use go_smartmontools.Base.{
  ℕ, zero, suc, ◌+◌, ◌*◌, ◌/◌, ◌%◌, ◌^◌, ◌≡◌, Bool, ◌&&◌, ◌==◌, ltb, leb, not, if◌then◌else◌, [],
  ◌∷◌, length, bit_and, bit_or, Bytes, slice, le_read, Result, ok, err, expected_bytes, ◌>>=◌,
  is_nil,
}

pub record IdentifyInfo : Type 0 where
  pub model_number : Bytes
  pub serial_number : Bytes
  pub firmware_version : Bytes
  pub user_capacity : ℕ
  pub logical_sector_size : ℕ
  pub physical_sector_size : ℕ
  pub rpm : ℕ
  pub smart_supported : Bool
  pub smart_enabled : Bool
  pub lba48 : Bool
  pub ata_version_major : ℕ
  pub sata_capabilities : ℕ
  pub sata_current_speed : ℕ
  pub raw : Bytes

-- The loop over pairs. A last byte without a partner is left at 0.
unfoldable pub swap_pairs : Bytes → Bytes
swap_pairs [] = []
swap_pairs (a ∷ []) = 0 ∷ []
swap_pairs (a ∷ b ∷ rest) = b ∷ a ∷ swap_pairs rest

unfoldable pub trim_right : Bytes → Bytes
trim_right [] = []
trim_right (b ∷ bs) = let rest = trim_right bs in if b == 0x20 && is_nil rest then [] else b ∷ rest

unfoldable pub ata_string : Bytes → Bytes
ata_string b = trim_right (swap_pairs b)

-- `for i := from; i > 0; i--`
unfoldable pub highest_bit_from : ℕ → ℕ → ℕ
highest_bit_from zero v = 0
highest_bit_from (suc i) v =
    if not (bit_and v (2 ^ suc i) == 0) then suc i else highest_bit_from i v

unfoldable pub highest_bit : ℕ → ℕ
highest_bit = highest_bit_from 15

-- `word(n)`
unfoldable pub word : Bytes → ℕ → Result ℕ
word d n = le_read 2 d (n * 2)

-- The branches on word 217.
unfoldable pub rotation_rate : ℕ → ℕ
rotation_rate r = if r == 0x0001 then 1 else if leb 0x0401 r && leb r 0xfffe then r else 0

-- `uint64(lo) | uint64(hi)<<16`, of two words.
unfoldable pub join_words : ℕ → ℕ → ℕ
join_words lo hi = bit_or lo (hi * 2 ^ 16 % 2 ^ 64)

unfoldable pub total_sectors : Bytes → Bool → Result ℕ
total_sectors d lba48 =
    if lba48
    then (do
      w100 ← word d 100
      w101 ← word d 101
      w102 ← word d 102
      w103 ← word d 103
      ok (bit_or (join_words w100 w101) (join_words w102 w103 * 2 ^ 32 % 2 ^ 64)))
    else do w60 ← word d 60; w61 ← word d 61; ok (join_words w60 w61)

-- `uint32(lo) | uint32(hi)<<16`, and twice that, in uint32.
unfoldable pub logical_size : Bytes → ℕ → Result ℕ
logical_size d w106 =
    if not (bit_and w106 0x1000 == 0)
    then (do
      w117 ← word d 117
      w118 ← word d 118
      let ls = bit_or w117 (w118 * 2 ^ 16 % 2 ^ 32)
      ok (if ltb 0 ls then ls * 2 % 2 ^ 32 else 512))
    else ok 512

unfoldable pub read_identify : Bytes → Result IdentifyInfo
read_identify d = do
  model ← slice d 54 94
  serial ← slice d 20 40
  firmware ← slice d 46 54
  rot_rate ← word d 217
  w82 ← word d 82
  w83 ← word d 83
  let lba48 = not (bit_and w83 0x0400 == 0)
  sectors ← total_sectors d lba48
  w106 ← word d 106
  logical ← logical_size d w106
  w85 ← word d 85
  w80 ← word d 80
  w76 ← word d 76
  w77 ← word d 77
  ok (record {
    model_number = ata_string model;
    serial_number = ata_string serial;
    firmware_version = ata_string firmware;
    user_capacity = sectors * logical % 2 ^ 64;
    logical_sector_size = logical;
    physical_sector_size = logical * 2 ^ bit_and w106 0x000f % 2 ^ 32;
    rpm = rotation_rate rot_rate;
    smart_supported = not (bit_and w82 0x0001 == 0);
    smart_enabled = not (bit_and w85 0x0001 == 0);
    lba48 = lba48;
    ata_version_major = highest_bit w80;
    sata_capabilities = w76;
    sata_current_speed = bit_and (w77 / 2 ^ 1) 0x7 % 2 ^ 8;
    raw = d;
  })

unfoldable pub parse_identify : Bytes → Result IdentifyInfo
parse_identify d =
    if not (length d == 512)
    then err (expected_bytes "identify" 512 (length d))
    else read_identify d
