-- ===== src/Main/Messages.antt =====
-- cmd/gosmart/main.go: what is written to stderr, as text.
pub mod Lines
use go_smartmontools.Base.{ℕ, suc, ◌++◌, List, [], ◌∷◌, Bytes, lit, decimal, Error, error_text}
use go_smartmontools.Base.Int.{ℤ, pos, negsuc}
use go_smartmontools.Main.Race.{Message, failure, timed_out}
use go_smartmontools.Printer.Nvme.{decimal_ℤ}

-- The dash of the timeout's message, in UTF-8: the one literal that is not ASCII.
abbrev pub dash : Bytes
dash = 0xe2 ∷ 0x80 ∷ 0x94 ∷ []

module _ (errno_text : ℕ → Bytes) where
  unfoldable pub message_text : Message → Bytes
  message_text (failure e) = lit "gosmart: " ++ error_text errno_text e ++ lit "\n"
  message_text (timed_out seconds) =
      lit "gosmart: timeout after "
      ++ decimal_ℤ seconds
      ++ lit "s "
      ++ dash
      ++ lit " device not responding"
      ++ lit "\n"

  -- The warning of `runATA`.
  unfoldable pub warning_text : Error → Bytes
  warning_text e = lit "Warning: SMART STATUS: " ++ error_text errno_text e ++ lit "\n"
