-- ===== src/Device/Handles.antt =====
-- internal/device: the open descriptors of Linux and handles of Windows, as a table. A device holds
-- the number of its own and the path that it was opened by.
use go_smartmontools.Base.{
  ℕ, ◌+◌, true, false, ◌≡◌, refl, arith, ◌==◌, Option, none, some, List, [], ◌∷◌, Bytes, Result, ok,
  err, panic,
}

-- What is open, by number; numbers from `next` on have not been given yet.
pub record Table : Type 0 where
  pub next : ℕ
  pub open_paths : List (ℕ × Bytes)

-- `linuxATADevice`, `linuxNVMeDevice`, `windowsATADevice` and `windowsNVMeDevice`; `path` is `Path()`.
pub record Handle : Type 0 where
  pub number : ℕ
  pub path : Bytes

-- A path that the system opens.
unfoldable pub opened_at : Bytes → Table → Handle × Table
opened_at path t = (
  record { number = t.next; path = path },
  record { next = t.next + 1; open_paths = (t.next, path) ∷ t.open_paths },
)

unfoldable pub removed : ℕ → List (ℕ × Bytes) → List (ℕ × Bytes)
removed n [] = []
removed n ((k, path) ∷ rest) = elim (k == n) [ true ↦ rest | false ↦ (k, path) ∷ removed n rest ]

-- `Close()`
unfoldable pub close : Handle → Table → Table
unfolding removed
close h t = record t { open_paths = removed h.number t.open_paths }

unfoldable pub path_in : ℕ → List (ℕ × Bytes) → Option Bytes
path_in n [] = none
path_in n ((k, path) ∷ rest) = elim (k == n) [ true ↦ some path | false ↦ path_in n rest ]

-- The path behind an open number.
unfoldable pub path_at : Handle → Table → Option Bytes
unfolding path_in
path_at h t = path_in h.number t.open_paths

-- `OpenATA` and `OpenNVMe`: an error of the system opens nothing.
unfoldable pub open_with : Result (Unit {0}) → Bytes → Table → Result Handle × Table
unfolding opened_at
open_with (ok u) path t = let (h, t') = opened_at path t in (ok h, t')
open_with (err e) path t = (err e, t)
open_with panic path t = (panic, t)

same_number : (n : ℕ) → (n == n) ≡ true
same_number n = ground arith

-- A device answers by the path that it was opened by.
pub path_at-opened_at :
    (path : Bytes) (t : Table) → path_at (opened_at path t).0 (opened_at path t).1 ≡ some path
unfolding path_at opened_at
path_at-opened_at path t = rw (path_in, same_number t.next) refl

-- Closing it leaves open what was open before.
pub close-opened_at :
    (path : Bytes) (t : Table)
    → (close (opened_at path t).0 (opened_at path t).1).open_paths ≡ t.open_paths
unfolding close opened_at
close-opened_at path t = rw (removed, same_number t.next) refl
