-- ===== src/Ata/Sector.antt =====
-- The helpers of internal/ata/smart.go: `le16` and `validateChecksum`, and the guards with which
-- every parser of a 512-byte answer begins.
use go_smartmontools.Base.{
  ℕ, ◌%◌, ◌<◌, ◌≡◌, ◌≢◌, refl, Bool, true, ◌==◌, not, if◌then◌else◌, arith, String, length, set,
  All, Bytes, IsByte, byte, byte-lt, total, total-set, length-set, sum_u8, sum_u8-total, Result, ok,
  err, expected_bytes, checksum, le_read, Bool-cases, inl, inr,
}

unfoldable pub le16 : Bytes → ℕ → Result ℕ
le16 d off = le_read 2 d off

-- The sum of all bytes must be 0 in a uint8.
unfoldable pub validate_checksum : Bytes → Bool
validate_checksum d = sum_u8 0 d == 0

-- `if len(data) != 512 { … }` and `if !validateChecksum(data) { … }` in front of the rest.
unfoldable pub checked_sector {ℓ} : {A : Type ℓ} → String → (Bytes → Result A) → Bytes → Result A
checked_sector what rest d =
    if not (length d == 512)
    then err (expected_bytes what 512 (length d))
    else if not (validate_checksum d)
    then err (checksum what)
    else rest d

-- The guards in plain arithmetic.
abbrev pub guarded {ℓ} : {A : Type ℓ} → String → A → Bytes → Result A
guarded what a d =
    if length d == 512
    then if total d % 256 == 0 then ok a else err (checksum what)
    else err (expected_bytes what 512 (length d))

-- The uint8 loop tests the true sum of the bytes modulo 256.
pub validate_checksum-total : (d : Bytes) → validate_checksum d ≡ (total d % 256 == 0)
unfolding validate_checksum
validate_checksum-total d = ground (arith, sum_u8-total 0 d)

pub checked_sector-guarded {ℓ} :
    {A : Type ℓ} (what : String) (rest : Bytes → Result A) (spec : Bytes → A)
    → ((d : Bytes) → length d ≡ 512 → rest d ≡ ok (spec d))
    → (d : Bytes) → checked_sector what rest d ≡ guarded what (spec d) d
unfolding checked_sector
checked_sector-guarded what rest spec good d = elim (Bool-cases (length d == 512)) [
  | inl e ↦ rw (e, validate_checksum-total d, good d (ground arith)) (ground arith)
  | inr e ↦ rw e refl
]

-- After one byte of a sound sector has changed, the sum is no longer 0.
pub total-set_ne :
    (d : Bytes) (i v : ℕ)
    → All IsByte d
    → i < length d
    → v < 256
    → v ≢ byte d i
    → total d % 256 ≡ 0
    → total (set d i v) % 256 ≢ 0
total-set_ne d i v h hi hv ne sum = omega (arith, total-set d i v hi, byte-lt d i h)

-- One changed byte of a sound sector is noticed, whatever the parser does with the rest.
pub checked_sector-set :
    {A : Type 0} (what : String) (rest : Bytes → Result A) (d : Bytes) (i v : ℕ)
    → All IsByte d
    → i < length d
    → v < 256
    → v ≢ byte d i
    → length d ≡ 512
    → validate_checksum d ≡ true
    → checked_sector what rest (set d i v) ≡ err (checksum what)
unfolding checked_sector
checked_sector-set what rest d i v h hi hv ne len sum = ground (
  arith,
  validate_checksum-total d,
  validate_checksum-total (set d i v),
  total-set_ne d i v h hi hv ne,
  length-set d i v,
)
