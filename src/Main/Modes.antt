-- ===== src/Main/Modes.antt =====
-- cmd/gosmart/main.go: list mode against get mode, over one device.
use go_smartmontools.Base.{◌≡◌, ◌↔◌, true, List, ◌++◌, String, contains, Result, ok}
use go_smartmontools.Ata.Attribute.{Attribute}
use go_smartmontools.Nvme
use go_smartmontools.Main.{World, Run, print_lines}

-- Two runs from one world agree: list mode prints `names`, and get mode succeeds exactly where list
-- mode does and `field` is one of the names. Otherwise neither prints.
abbrev pub Agree :
    String → World → List String → Result (Unit {0}) × World → Result (Unit {0}) × World → Type 0
Agree field w names listed got =
    (listed.1.stdout ≡ w.stdout ++ print_lines names)
    × ((got.0 ≡ ok tt) ↔ ((listed.0 ≡ ok tt) × (contains field names ≡ true)))

-- A run that prints nothing on standard output.
record Quiet {A : Type 0} (m : Run A) : Type 0 where
  same : (w : World) → (m w).1.stdout ≡ w.stdout
