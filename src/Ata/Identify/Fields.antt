-- ===== src/Ata/Identify/Fields.antt =====
-- `ParseIdentify` against byte offsets and plain arithmetic.
use go_smartmontools.Base.{
  ℕ, suc, ◌+◌, ◌*◌, ◌/◌, ◌%◌, ◌^◌, ◌<◌, ◌≡◌, refl, arith, Bool, true, false, ◌==◌, not, ltb,
  if◌then◌else◌, length, take, drop, All, bit_and, bit_or, bit_and-pow, bit_and-mask, bit_or-shift,
  Bytes, IsByte, le_at, le_at-lt, le_read_in, slice_in, ok, err, expected_bytes, Bool-cases, inl,
  inr, if_ok,
}
use native.Mathlib.Nat.{one-le-pow}
use mathlib.Core.Bool.{◌&&◌}
use mathlib.Core.Path.{subst}
use go_smartmontools.Ata.Identify.{
  IdentifyInfo, ata_string, highest_bit, word, rotation_rate, join_words, total_sectors,
  logical_size, read_identify, parse_identify,
}

-- Bit k of a number.
abbrev pub bit : ℕ → ℕ → Bool
bit k v = v / 2 ^ k % 2 == 1

unfoldable pub identify_at : Bytes → IdentifyInfo
identify_at d =
    let lba48 = bit 10 (le_at 2 d 166) in
    let sectors = if lba48 then le_at 8 d 200 else le_at 4 d 120 in
    let words = le_at 4 d 234 in
    let logical = if bit 12 (le_at 2 d 212) && ltb 0 words then words * 2 % 2 ^ 32 else 512 in
    record {
      model_number = ata_string (take 40 (drop 54 d));
      serial_number = ata_string (take 20 (drop 20 d));
      firmware_version = ata_string (take 8 (drop 46 d));
      user_capacity = sectors * logical % 2 ^ 64;
      logical_sector_size = logical;
      physical_sector_size = logical * 2 ^ (le_at 2 d 212 % 16) % 2 ^ 32;
      rpm = rotation_rate (le_at 2 d 434);
      smart_supported = bit 0 (le_at 2 d 164);
      smart_enabled = bit 0 (le_at 2 d 170);
      lba48 = lba48;
      ata_version_major = highest_bit (le_at 2 d 160);
      sata_capabilities = le_at 2 d 152;
      sata_current_speed = le_at 2 d 154 / 2 % 8;
      raw = d;
    }

bit_lem : (k v : ℕ) → not (bit_and v (2 ^ k) == 0) ≡ bit k v
bit_lem k v = grind (arith, bit_and-pow k v, one-le-pow k 2)

-- Neighbouring numbers joined.
le_at_four :
    (d : Bytes) (off : ℕ) → le_at 4 d off ≡ le_at 2 d off + le_at 2 d (suc (suc off)) * 2 ^ 16
unfolding le_at
le_at_four d off = omega arith

le_at_eight :
    (d : Bytes) (off : ℕ)
    → le_at 8 d off ≡ le_at 4 d off + le_at 4 d (suc (suc (suc (suc off)))) * 2 ^ 32
unfolding le_at
le_at_eight d off = omega arith

small_field : (v : ℕ) → v % 8 % 256 ≡ v % 8
small_field v = omega arith

module _ (d : Bytes) (h : All IsByte d) where
  join_words_lem :
      (off : ℕ) → join_words (le_at 2 d off) (le_at 2 d (suc (suc off))) ≡ le_at 4 d off
  unfolding join_words
  join_words_lem off = ground (
    arith,
    le_at_four d off,
    le_at-lt 2 d off h,
    le_at-lt 2 d (suc (suc off)) h,
    bit_or-shift 16 (le_at 2 d off) (le_at 2 d (suc (suc off))),
  )

  join_eight :
      (off : ℕ)
      → bit_or (le_at 4 d off) (le_at 4 d (suc (suc (suc (suc off)))) * 2 ^ 32 % 2 ^ 64)
        ≡ le_at 8 d off
  join_eight off = ground (
    arith,
    le_at_eight d off,
    le_at-lt 4 d off h,
    le_at-lt 4 d (suc (suc (suc (suc off)))) h,
    bit_or-shift 32 (le_at 4 d off) (le_at 4 d (suc (suc (suc (suc off))))),
  )

  join_u32 :
      (off : ℕ)
      → bit_or (le_at 2 d off) (le_at 2 d (suc (suc off)) * 2 ^ 16 % 2 ^ 32) ≡ le_at 4 d off
  join_u32 off = ground (
    arith,
    le_at_four d off,
    le_at-lt 2 d off h,
    le_at-lt 2 d (suc (suc off)) h,
    bit_or-shift 16 (le_at 2 d off) (le_at 2 d (suc (suc off))),
  )

  module _ (len : length d ≡ 512) where
    word_lem : (n : ℕ) → n < 256 → word d n ≡ ok (le_at 2 d (n * 2))
    unfolding word
    word_lem n hn = le_read_in 2 d (n * 2) (omega arith)

    total_sectors_lem :
        (lba48 : Bool) → total_sectors d lba48 ≡ ok (if lba48 then le_at 8 d 200 else le_at 4 d 120)
    unfolding total_sectors
    total_sectors_lem true =
        rw
          (
            word_lem 100 (omega arith),
            word_lem 101 (omega arith),
            word_lem 102 (omega arith),
            word_lem 103 (omega arith),
            join_words_lem 200,
            join_words_lem 204,
            join_eight 200,
          )
          refl
    total_sectors_lem false =
        rw (word_lem 60 (omega arith), word_lem 61 (omega arith), join_words_lem 120) refl

    logical_size_lem :
        (w : ℕ)
        → logical_size d w
          ≡ ok (if bit 12 w && ltb 0 (le_at 4 d 234) then le_at 4 d 234 * 2 % 2 ^ 32 else 512)
    unfolding logical_size
    logical_size_lem w =
        rw (bit_lem 12 w, word_lem 117 (omega arith), word_lem 118 (omega arith), join_u32 234)
          (ground arith)

    read_identify_lem : read_identify d ≡ ok (identify_at d)
    unfolding read_identify identify_at
    read_identify_lem =
        simp
          (
            slice_in d 54 94 40 refl (omega arith),
            slice_in d 20 40 20 refl (omega arith),
            slice_in d 46 54 8 refl (omega arith),
            word_lem 217 (omega arith),
            word_lem 82 (omega arith),
            word_lem 83 (omega arith),
            total_sectors_lem,
            word_lem 106 (omega arith),
            logical_size_lem,
            word_lem 85 (omega arith),
            word_lem 80 (omega arith),
            word_lem 76 (omega arith),
            word_lem 77 (omega arith),
          )
          (rw
            (
              bit_lem 10 (le_at 2 d 166),
              bit_lem 0 (le_at 2 d 164),
              bit_lem 0 (le_at 2 d 170),
              bit_and-mask 4 (le_at 2 d 212),
              bit_and-mask 3 (le_at 2 d 154 / 2),
              small_field (le_at 2 d 154 / 2),
            )
            refl)

-- An answer in bytes to IDENTIFY DEVICE is refused exactly when it has not 512 of them. For 512 no
-- read is out of range, and the fields are: the three texts at their words; the sectors, a 64-bit
-- number at byte 200 for a drive with 48-bit LBA and a 32-bit number at byte 120 otherwise; the
-- sector sizes; the capacity modulo 2 ^ 64; and the flags as single bits of their words.
pub parse_identify_lem :
    (d : Bytes)
    → All IsByte d
    → parse_identify d ≡ (
        if length d == 512
        then ok (identify_at d)
        else err (expected_bytes "identify" 512 (length d)))
unfolding parse_identify
parse_identify_lem d h = elim (Bool-cases (length d == 512)) [
  | inl e ↦ rw (e, read_identify_lem d h (ground arith)) refl
  | inr e ↦ rw e refl
]

-- The sectors that a drive reports.
abbrev pub sectors_at : Bytes → Bool → ℕ
sectors_at d lba48 = if lba48 then le_at 8 d 200 else le_at 4 d 120

abbrev HasExactCapacity : Bytes → IdentifyInfo → Type 0
HasExactCapacity d info =
    sectors_at d info.lba48 * info.logical_sector_size < 2 ^ 64
    → info.user_capacity ≡ sectors_at d info.lba48 * info.logical_sector_size

identify_at-HasExactCapacity : (d : Bytes) → HasExactCapacity d (identify_at d)
unfolding identify_at
identify_at-HasExactCapacity d fits = omega arith

-- Where an answer in bytes parses and the sectors that the drive reports, times its sector size,
-- fit 64 bits, the capacity is that product: no bit of the count is lost on the way through its
-- words.
pub parse_identify-capacity :
    (d : Bytes) {info : IdentifyInfo}
    → All IsByte d
    → parse_identify d ≡ ok info
    → sectors_at d info.lba48 * info.logical_sector_size < 2 ^ 64
    → info.user_capacity ≡ sectors_at d info.lba48 * info.logical_sector_size
parse_identify-capacity d h e =
    subst (HasExactCapacity d) (if_ok (length d == 512) _ (rw (parse_identify_lem d h) at e)).1
      (identify_at-HasExactCapacity d)
