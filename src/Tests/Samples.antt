-- ===== src/Tests/Samples.antt =====
-- Sample answers: sectors, attributes and devices.
use go_smartmontools.Base.{
  ◌≡◌, arith, Bool, true, false, ◌&&◌, ltb, some, [], ◌∷◌, set, All, Bytes, IsByte, replicate, ok,
  err, errno,
}
use go_smartmontools.Ata.Attribute.{Attribute}
use go_smartmontools.Device.{AtaDevice, NvmeDevice}
use go_smartmontools.Main.{World}

abbrev all_bytes : Bytes → Bool
all_bytes [] = true
all_bytes (b ∷ d) = ltb b 256 && all_bytes d

pub all_bytes-IsByte : (d : Bytes) → all_bytes d ≡ true → All IsByte d
all_bytes-IsByte [] h = tt
all_bytes-IsByte (b ∷ d) h = (ground arith, all_bytes-IsByte d (ground arith))

-- SMART values with one attribute: power-on hours, flags 3, value and worst 99, raw value 1000.
abbrev pub values_sector : Bytes
values_sector =
    set (set (set (set (set (set (set (replicate 512 0) 2 9) 3 3) 5 99) 6 99) 7 232) 8 3) 511 67

-- IDENTIFY DEVICE of a 48-bit drive of 1000 sectors, with the model "AB".
abbrev pub identify_sector : Bytes
identify_sector = set (set (set (set (set (replicate 512 0) 54 66) 55 65) 167 4) 200 232) 201 3

abbrev pub power_on : Attribute
power_on = record {
  id = 9;
  flags = 3;
  current = 99;
  worst = 99;
  raw = 232 ∷ 3 ∷ 0 ∷ 0 ∷ 0 ∷ 0 ∷ [];
}

-- A drive with those answers, no logs, and status registers that tell nothing.
abbrev pub drive : AtaDevice
drive = record {
  identify = ok identify_sector;
  smart_read_data = ok values_sector;
  smart_read_thresholds = ok (replicate 512 0);
  smart_status = ok (false, some (errno 5));
  smart_read_log = λ addr. err (errno 5);
}

abbrev pub controller : NvmeDevice
controller = record {
  identify_controller = ok (replicate 4096 0);
  get_log_page = λ log_id size. ok (replicate size 0);
}

abbrev pub start : World
start = record { commands = []; stdout = []; stderr = [] }
