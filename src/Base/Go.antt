-- ===== src/Base/Go.antt =====
-- What a Go function that may fail returns: a value, an error or a panic; and counted loops.
use Prim.Native.Nat.{ℕ, zero, suc, ◌+◌, ◌<◌, ◌≤◌}
use Prim.Native.String.{String}
use mathlib.Core.Path.{◌≡◌, refl, ap, ◌∙◌, subst}
use mathlib.Core.Logic.{◌⊎◌, inl, inr}
use mathlib.Core.Bool.{Bool, true, false}
use mathlib.Core.List.{List, [], ◌∷◌}
use native.Mathlib.Omega.{arith}
use go_smartmontools.Base.Tests.{if◌then◌else◌}
use go_smartmontools.Base.Lists.{length, get_or, All}

-- The errors of the program by the format that makes them, with the values put in.
pub data Error : Type 0 where
  expected_bytes : String → ℕ → ℕ → Error
  checksum : String → Error
  not_a_multiple : ℕ → Error
  ambiguous_registers : ℕ → ℕ → Error
  ambiguous_cylinders : ℕ → ℕ → Error
  short_reply : String → ℕ → Error
  short_descriptor : ℕ → Error
  driver_error : ℕ → ℕ → Error
  status_driver_error : ℕ → Error
  field_not_found : String → Error
  errno : ℕ → Error
  wrapped : String → Error → Error
  wrapped_log_page : ℕ → Error → Error
  wrapped_open : List ℕ → Error → Error

-- `panic` is an index or a slice out of range, which ends the process.
pub data Result {ℓ} (A : Type ℓ) : Type ℓ where
  ok : A → Result A
  err : Error → Result A
  panic : Result A

infixl 5 ◌>>=◌ ◌>>◌
abbrev pub ◌>>=◌ {ℓ κ} : {A : Type ℓ} {B : Type κ} → Result A → (A → Result B) → Result B
ok a >>= f = f a
err e >>= f = err e
panic >>= f = panic

abbrev pub ◌>>◌ {ℓ} : {B : Type ℓ} → Result (Unit {0}) → Result B → Result B
m >> k = m >>= λ _. k

-- What a guarded result says when it is a success.
pub if_ok :
    {A : Type 0} (b : Bool) (e : Error) {a c : A}
    → (if b then ok a else err e) ≡ ok c
    → (b ≡ true) × (a ≡ c)
if_ok true e h = (refl, cc)
if_ok false e h = absurd (cc)

pub Result-cases {ℓ} :
    {A : Type ℓ} (r : Result A) → ((a : A) × (r ≡ ok a)) ⊎ ((e : Error) × (r ≡ err e)) ⊎ (r ≡ panic)
Result-cases (ok a) = inl (a, refl)
Result-cases (err e) = inr (inl (e, refl))
Result-cases panic = inr (inr refl)

pub ok-injective {ℓ} : {A : Type ℓ} {a b : A} → ok a ≡ ok b → a ≡ b
ok-injective e = cc

-- `a[i]` of an array or a slice.
unfoldable pub index {ℓ} : {A : Type ℓ} → List A → ℕ → Result A
index [] i = panic
index (x ∷ xs) zero = ok x
index (x ∷ xs) (suc i) = index xs i

pub index_in {ℓ} :
    {A : Type ℓ} (xs : List A) (i : ℕ) → i < length xs → (a : A) × (index xs i ≡ ok a)
unfolding index
index_in [] i h = absurd (omega arith)
index_in (x ∷ xs) zero h = (x, refl)
index_in (x ∷ xs) (suc i) h = index_in xs i (omega arith)

pub index-get_or {ℓ} :
    {A : Type ℓ} (xs : List A) (i : ℕ) (d : A) → i < length xs → index xs i ≡ ok (get_or xs i d)
unfolding index
index-get_or [] i d h = absurd (omega arith)
index-get_or (x ∷ xs) zero d h = refl
index-get_or (x ∷ xs) (suc i) d h = index-get_or xs i d (omega arith)

pub index-All {ℓ κ} :
    {A : Type ℓ} (P : A → Type κ) (xs : List A) (i : ℕ) (a : A) → All P xs → index xs i ≡ ok a → P a
unfolding index
index-All P [] i a _ e = absurd (cc)
index-All P (x ∷ xs) zero a (px, _) e = subst P (ok-injective e) px
index-All P (x ∷ xs) (suc i) a (_, h) e = index-All P xs i a h e

-- `for i := from; i < from + n; i++ { a[i] = f(i) }`.
pub for_range {ℓ} : {A : Type ℓ} → (ℕ → Result A) → ℕ → ℕ → Result (List A)
for_range f zero i = ok []
for_range f (suc n) i = do a ← f i; rest ← for_range f n (suc i); ok (a ∷ rest)

pub tabulate {ℓ} : {A : Type ℓ} → (ℕ → A) → ℕ → ℕ → List A
tabulate g zero i = []
tabulate g (suc n) i = g i ∷ tabulate g n (suc i)

module _ {ℓ} {A : Type ℓ} where
  -- A loop whose rounds all succeed fills the array.
  pub for_range-tabulate :
      (f : ℕ → Result A) (g : ℕ → A) (n i m : ℕ)
      → i + n ≤ m
      → ((j : ℕ) → j < m → f j ≡ ok (g j))
      → for_range f n i ≡ ok (tabulate g n i)
  unfolding for_range tabulate
  for_range-tabulate f g zero i m h all = refl
  for_range-tabulate f g (suc n) i m h all =
      rw (all i (omega arith), for_range-tabulate f g n (suc i) m (omega arith) all)

  pub length-tabulate : (g : ℕ → A) (n i : ℕ) → length (tabulate g n i) ≡ n
  unfolding tabulate
  length-tabulate g zero i = refl
  length-tabulate g (suc n) i = omega (arith, length-tabulate g n (suc i))

  pub All-tabulate {κ} :
      (P : A → Type κ) (g : ℕ → A) (n i : ℕ) → ((j : ℕ) → P (g j)) → All P (tabulate g n i)
  unfolding tabulate
  All-tabulate P g zero i h = tt
  All-tabulate P g (suc n) i h = (h i, All-tabulate P g n (suc i) h)

  pub get_or-tabulate :
      (g : ℕ → A) (n i j : ℕ) (d : A) → j < n → get_or (tabulate g n i) j d ≡ g (i + j)
  unfolding tabulate
  get_or-tabulate g zero i j d h = absurd (omega arith)
  get_or-tabulate g (suc n) i zero d h = ground arith
  get_or-tabulate g (suc n) i (suc j) d h =
      get_or-tabulate g n (suc i) j d (omega arith) ∙ ap g (omega arith)

-- `fmt.Errorf("what: %w", err)` on an error; a value and a panic pass.
unfoldable pub wrap_err {ℓ} : {A : Type ℓ} → String → Result A → Result A
wrap_err what (ok a) = ok a
wrap_err what (err e) = err (wrapped what e)
wrap_err what panic = panic

-- `fmt.Errorf("NVMe Get Log Page 0x%02x: %w", logID, err)` on an error.
unfoldable pub wrap_log_page {ℓ} : {A : Type ℓ} → ℕ → Result A → Result A
wrap_log_page log_id (ok a) = ok a
wrap_log_page log_id (err e) = err (wrapped_log_page log_id e)
wrap_log_page log_id panic = panic
