-- ===== src/Tests/DeviceCases.antt =====
-- The devices over sample system calls.
use go_smartmontools.Base.{ℕ, arith, none, [], ◌∷◌, ◌++◌, lit, Bytes, replicate}
use go_smartmontools.Device.Windows.{Reply, replied, query_buffer}
use go_smartmontools.Device.Requests.{IsQuery, query_buffer-IsQuery}
use go_smartmontools.Main.Windows.{Machine}
use go_smartmontools.Main.{Mode, list}
use go_smartmontools.Device.Handles.{Table}

-- A driver that answers a sector of ones behind a header, and the count 528.
abbrev driver : ℕ → Bytes → Bytes → Reply
driver code in_buf out_buf = replied (replicate 16 0 ++ replicate 512 1) 528

-- A machine that opens every path, with that driver behind it.
abbrev machine : Machine
machine = record { utf16 = λ path. none; create_file = λ path. none; control = λ path. driver }

query_buffer-IsQuery_example : IsQuery 2 1 1024 (query_buffer 2 1 1024)
query_buffer-IsQuery_example =
    query_buffer-IsQuery 2 1 1024 (omega arith) (omega arith) (omega arith)

-- One other file is open.
abbrev table : Table
table = record { next = 4; open_paths = (3, lit "/dev/null") ∷ [] }

abbrev listing : Mode
listing = list (lit "/dev/sda")
