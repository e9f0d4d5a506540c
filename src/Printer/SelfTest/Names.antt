-- ===== src/Printer/SelfTest/Names.antt =====
-- internal/printer/ata.go: `selfTestTypeName` over all numbers.
use go_smartmontools.Base.{
  ℕ, ◌+◌, ◌%◌, ◌≡◌, refl, ap, arith, ◌==◌, if◌then◌else◌, bit_and-mask, lit,
}
use go_smartmontools.Printer.SelfTest.{type_name_of, self_test_type_name}

low_seven : (num : ℕ) → self_test_type_name num ≡ type_name_of (num % 128)
unfolding self_test_type_name
low_seven num = ap type_name_of (bit_and-mask 7 num)

-- The name depends on the low seven bits alone: it is one of four names for offline tests, or the
-- default. A number with bit 7 set, 128 more, gets the name of the number without it.
pub self_test_type_name_lem :
    (num : ℕ)
    → (self_test_type_name num ≡ (
        if num % 128 == 1
        then lit "Short offline"
        else if num % 128 == 2
        then lit "Extended offline"
        else if num % 128 == 3
        then lit "Conveyance offline"
        else if num % 128 == 4
        then lit "Selective offline"
        else lit "Unknown"))
      × (self_test_type_name (num + 128) ≡ self_test_type_name num)
self_test_type_name_lem num =
    rw (low_seven num, low_seven (num + 128), wraps) (unfold type_name_of in ground arith, refl)
  where
    wraps : (num + 128) % 128 ≡ num % 128
    wraps = omega arith
