-- ===== src/Ata/Thresholds.antt =====
-- internal/ata/smart.go: SMART READ THRESHOLDS (`SmartThresholds`, `ParseSmartThresholds`).
use go_smartmontools.Base.{
  ℕ, ◌+◌, ◌*◌, ◌≡◌, refl, arith, List, length, Bytes, byte, at, at_in, le_at, le_read_in, Result,
  ok, ◌>>=◌, for_range, tabulate, for_range-tabulate,
}
use go_smartmontools.Ata.Sector.{le16, checked_sector, checked_sector-guarded, guarded}

pub record SmartThresholds : Type 0 where
  pub rev_number : ℕ
  pub thresholds : List ℕ

-- One round of the loop: `data[off+1]`, for `off` of 2 + 12 i.
unfoldable pub parse_threshold : Bytes → ℕ → Result ℕ
parse_threshold d i = at d (2 + i * 12 + 1)

unfoldable pub read_smart_thresholds : Bytes → Result SmartThresholds
unfolding le16
read_smart_thresholds d = do
  rev ← le16 d 0
  thresholds ← for_range (parse_threshold d) 30 0
  ok (record { rev_number = rev; thresholds = thresholds })

unfoldable pub parse_smart_thresholds : Bytes → Result SmartThresholds
parse_smart_thresholds = checked_sector "smart thresholds" read_smart_thresholds

unfoldable pub smart_thresholds_at : Bytes → SmartThresholds
smart_thresholds_at d = record {
  rev_number = le_at 2 d 0;
  thresholds = tabulate (λ i. byte d (2 + i * 12 + 1)) 30 0;
}

thresholds_loop :
    (d : Bytes)
    → length d ≡ 512
    → for_range (parse_threshold d) 30 0 ≡ ok (tabulate (λ i. byte d (2 + i * 12 + 1)) 30 0)
unfolding parse_threshold
thresholds_loop d h =
    for_range-tabulate (parse_threshold d) (λ i. byte d (2 + i * 12 + 1)) 30 0 30 (omega arith)
      (λ j hj. at_in d (2 + j * 12 + 1) (omega arith))

read_smart_thresholds_lem :
    (d : Bytes) → length d ≡ 512 → read_smart_thresholds d ≡ ok (smart_thresholds_at d)
unfolding read_smart_thresholds smart_thresholds_at
read_smart_thresholds_lem d h = rw (le_read_in 2 d 0 (omega arith), thresholds_loop d h) refl

-- SMART READ THRESHOLDS is refused unless it has 512 bytes that sum to 0 modulo 256. Otherwise
-- the threshold of slot i is the byte at 3 + 12 i, and no read is out of range.
pub parse_smart_thresholds-guarded :
    (d : Bytes) → parse_smart_thresholds d ≡ guarded "smart thresholds" (smart_thresholds_at d) d
unfolding parse_smart_thresholds
parse_smart_thresholds-guarded =
    checked_sector-guarded "smart thresholds" read_smart_thresholds smart_thresholds_at
      read_smart_thresholds_lem
