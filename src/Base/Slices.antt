-- ===== src/Base/Slices.antt =====
-- Byte slices: reads that panic out of range, little-endian numbers, checksums.
use Prim.Native.Nat.{ℕ, zero, suc, ◌+◌, ◌-◌, ◌*◌, ◌%◌, ◌^◌, ◌≤◌, ◌<◌}
use mathlib.Core.Path.{◌≡◌, refl, ap, sym, ◌∙◌}
use mathlib.Core.Bool.{Bool, true, false, ◌&&◌}
use mathlib.Core.List.{List, [], ◌∷◌}
use native.Mathlib.Nat.{pow-suc}
use native.Mathlib.Omega.{arith}
use go_smartmontools.Base.Tests.{ltb, leb, ◌==◌, le→leb, if◌then◌else◌}
use go_smartmontools.Base.Lists.{
  length, get_or, replicate, length-replicate, take, drop, set, All, length-take, length-drop,
  get_or-All,
}
use go_smartmontools.Base.Go.{Result, ok, panic, ◌>>=◌}

abbrev pub Bytes : Type 0
Bytes = List ℕ

abbrev pub IsByte : ℕ → Type 0
IsByte b = b < 256

-- A number of so many bits.
abbrev pub IsUint : ℕ → ℕ → Type 0
IsUint bits n = n < 2 ^ bits

-- The byte at an index that is in range.
unfoldable pub byte : Bytes → ℕ → ℕ
byte d i = get_or d i 0

-- `d[i]`
unfoldable pub at : Bytes → ℕ → Result ℕ
at d i = if ltb i (length d) then ok (byte d i) else panic

-- `d[a:b]`, for a slice whose capacity is its length.
unfoldable pub slice : Bytes → ℕ → ℕ → Result Bytes
slice d a b = if leb a b && leb b (length d) then ok (take (b - a) (drop a d)) else panic

-- The number that bytes spell, lowest first.
unfoldable pub le_value : Bytes → ℕ
le_value [] = 0
le_value (b ∷ bs) = b + 256 * le_value bs

-- `binary.LittleEndian.Uint16`, `Uint32` and `Uint64`, for n of 2, 4 and 8: they read the first
-- n bytes of their slice.
unfoldable pub uint : ℕ → Bytes → Result ℕ
uint n s = if leb n (length s) then ok (le_value (take n s)) else panic

-- `binary.LittleEndian.UintN(d[off : off+n])`
unfoldable pub le_read : ℕ → Bytes → ℕ → Result ℕ
unfolding slice uint
le_read n d off = do s ← slice d off (off + n); uint n s

-- The same number, by positions in the whole slice.
unfoldable pub le_at : ℕ → Bytes → ℕ → ℕ
le_at zero d off = 0
le_at (suc n) d off = byte d off + 256 * le_at n d (suc off)

le_at-suc : (n b : ℕ) (d : Bytes) (off : ℕ) → le_at n (b ∷ d) (suc off) ≡ le_at n d off
unfolding le_at byte
le_at-suc zero b d off = refl
le_at-suc (suc n) b d off = omega (arith, le_at-suc n b d (suc off))

le_at-nil : (n off : ℕ) → le_at n [] off ≡ 0
unfolding le_at byte
le_at-nil zero off = refl
le_at-nil (suc n) off = omega (arith, le_at-nil n (suc off))

le_value-take_nil : (n : ℕ) → le_value (take n []) ≡ 0
unfolding le_value
le_value-take_nil zero = refl
le_value-take_nil (suc n) = refl

pub le_value-take-drop : (n off : ℕ) (d : Bytes) → le_value (take n (drop off d)) ≡ le_at n d off
unfolding le_value le_at byte
le_value-take-drop zero off d = refl
le_value-take-drop (suc n) zero [] = omega (arith, le_at-nil n 1)
le_value-take-drop (suc n) zero (b ∷ d) = omega (arith, le_value-take-drop n 0 d, le_at-suc n b d 0)
le_value-take-drop (suc n) (suc off) [] = omega (arith, le_at-nil n (suc (suc off)))
le_value-take-drop (suc n) (suc off) (b ∷ d) =
    omega (arith, le_value-take-drop (suc n) off d, le_at-suc n b d (suc off))

take-take {ℓ} : {A : Type ℓ} (n m : ℕ) (xs : List A) → n ≤ m → take n (take m xs) ≡ take n xs
take-take zero m xs h = refl
take-take (suc n) zero xs h = absurd (omega arith)
take-take (suc n) (suc m) [] h = refl
take-take (suc n) (suc m) (x ∷ xs) h = ap (λ r. x ∷ r) (take-take n m xs (omega arith))

-- The number at the front of a slice `d[off : off+m]`.
pub le_at-take-drop :
    (n m off : ℕ) (d : Bytes) → n ≤ m → le_at n (take m (drop off d)) 0 ≡ le_at n d off
le_at-take-drop n m off d h =
    sym (le_value-take-drop n 0 (take m (drop off d)))
    ∙ ap le_value (take-take n m (drop off d) h)
    ∙ le_value-take-drop n off d

-- `d[a : a+n]` succeeds exactly when its bytes are there.
pub slice_lem :
    (d : Bytes) (a n : ℕ)
    → slice d a (a + n) ≡ (if leb (a + n) (length d) then ok (take n (drop a d)) else panic)
unfolding slice
slice_lem d a n = let e : a + n - a ≡ n = omega arith in rw (e, le→leb a (a + n) (omega arith)) refl

uint-take : (n : ℕ) (xs : Bytes) → n ≤ length xs → uint n (take n xs) ≡ ok (le_value (take n xs))
unfolding uint
uint-take n xs h = rw (take-take n n xs (omega arith), length-take n xs) (ground arith)

-- A read succeeds exactly when its bytes are there, and gives the number at their positions.
pub le_read_lem :
    (n : ℕ) (d : Bytes) (off : ℕ)
    → le_read n d off ≡ (if leb (off + n) (length d) then ok (le_at n d off) else panic)
unfolding le_read
le_read_lem n d off =
    rw slice_lem
      (ground (arith, uint-take n (drop off d), length-drop off d, le_value-take-drop n off d))

-- The three reads where their bytes are there.
pub at_in : (d : Bytes) (i : ℕ) → i < length d → at d i ≡ ok (byte d i)
unfolding at
at_in d i h = ground arith

pub le_read_in :
    (n : ℕ) (d : Bytes) (off : ℕ) → off + n ≤ length d → le_read n d off ≡ ok (le_at n d off)
le_read_in n d off h = rw (le_read_lem, le→leb (off + n) (length d) h) refl

pub slice_in :
    (d : Bytes) (a b n : ℕ) → b ≡ a + n → b ≤ length d → slice d a b ≡ ok (take n (drop a d))
slice_in d a b n e h = rw (e, slice_lem, le→leb (a + n) (length d) (omega arith)) refl

pub le_at-lt : (n : ℕ) (d : Bytes) (off : ℕ) → All IsByte d → le_at n d off < 256 ^ n
unfolding le_at byte
le_at-lt zero d off h = omega arith
le_at-lt (suc n) d off h =
    omega
      (arith, get_or-All IsByte d off 0 h (omega arith), le_at-lt n d (suc off) h, pow-suc 256 n)

pub byte-lt : (d : Bytes) (i : ℕ) → All IsByte d → byte d i < 256
unfolding byte
byte-lt d i h = get_or-All IsByte d i 0 h (omega arith)

-- `var sum uint8; for _, b := range data { sum += b }`
unfoldable pub sum_u8 : ℕ → Bytes → ℕ
sum_u8 sum [] = sum
sum_u8 sum (b ∷ bs) = sum_u8 ((sum + b) % 2 ^ 8) bs

-- The same sum with no bound.
abbrev pub total : Bytes → ℕ
total [] = 0
total (b ∷ bs) = b + total bs

pub sum_u8-total : (sum : ℕ) (d : Bytes) → sum < 256 → sum_u8 sum d ≡ (sum + total d) % 256
unfolding sum_u8
sum_u8-total sum [] h = omega arith
sum_u8-total sum (b ∷ bs) h = omega (arith, sum_u8-total ((sum + b) % 2 ^ 8) bs (omega arith))

-- A write moves the sum by the difference of the bytes.
pub total-set : (d : Bytes) (i v : ℕ) → i < length d → total (set d i v) + byte d i ≡ total d + v
unfolding byte
total-set [] i v h = absurd (omega arith)
total-set (b ∷ d) zero v h = omega arith
total-set (b ∷ d) (suc i) v h = omega (arith, total-set d i v (omega arith))

-- `copy(dst, src)`: what `dst` holds afterwards.
unfoldable pub copy : Bytes → Bytes → Bytes
copy [] src = []
copy (d ∷ dst) [] = d ∷ dst
copy (d ∷ dst) (s ∷ src) = s ∷ copy dst src

pub length-copy : (dst src : Bytes) → length (copy dst src) ≡ length dst
unfolding copy
length-copy [] src = refl
length-copy (d ∷ dst) [] = refl
length-copy (d ∷ dst) (s ∷ src) = ap suc (length-copy dst src)

pub All-copy {κ} : (P : ℕ → Type κ) (dst src : Bytes) → All P dst → All P src → All P (copy dst src)
unfolding copy
All-copy P [] src hd hs = tt
All-copy P (d ∷ dst) [] hd hs = hd
All-copy P (d ∷ dst) (s ∷ src) (_, hd) (ps, hs) = (ps, All-copy P dst src hd hs)

-- `==` of two strings of bytes.
unfoldable pub eq_bytes : Bytes → Bytes → Bool
eq_bytes [] [] = true
eq_bytes [] (y ∷ ys) = false
eq_bytes (x ∷ xs) [] = false
eq_bytes (x ∷ xs) (y ∷ ys) = x == y && eq_bytes xs ys

pub eq_bytes_sound : (xs ys : Bytes) → eq_bytes xs ys ≡ true → xs ≡ ys
unfolding eq_bytes
eq_bytes_sound [] [] h = refl
eq_bytes_sound [] (y ∷ ys) h = absurd (cc)
eq_bytes_sound (x ∷ xs) [] h = absurd (cc)
eq_bytes_sound (x ∷ xs) (y ∷ ys) h = ground (arith, eq_bytes_sound xs ys)

pub eq_bytes_refl : (xs : Bytes) → eq_bytes xs xs ≡ true
unfolding eq_bytes
eq_bytes_refl [] = refl
eq_bytes_refl (x ∷ xs) = ground (arith, eq_bytes_refl xs)

-- `make([]byte, n)`
unfoldable pub zeros : ℕ → Bytes
zeros n = replicate n 0

pub length-zeros : (n : ℕ) → length (zeros n) ≡ n
unfolding zeros
length-zeros n = length-replicate {A = ℕ} n 0

pub zeros-IsByte : (n : ℕ) → All IsByte (zeros n)
unfolding zeros
zeros-IsByte zero = tt
zeros-IsByte (suc n) = (omega arith, zeros-IsByte n)
