-- ===== src/Ata/Lookup.antt =====
-- internal/ata/smart.go: `AttrNames` and `AttrByName`, which list mode and get mode use.
use go_smartmontools.Base.{
  ℕ, Bool, ◌&&◌, ◌==◌, not, if◌then◌else◌, true, false, Option, none, some, List, [], ◌∷◌, ◌++◌,
  String, str_eq, eq_iff, ◌≡◌, ◌≢◌, inl, inr, refl, ap, arith, All, Bool-cases, contains, is_some,
}
use go_smartmontools.Ata.Attribute.{Attribute}
use go_smartmontools.Ata.Attr.{attr_name}
use go_smartmontools.Ata.Smart.{SmartValues}

module _ (rpm : ℕ) where
  -- The loop of `AttrNames`.
  unfoldable pub names_of : List Attribute → List String
  names_of [] = []
  names_of (a ∷ rest) =
      if not (a.id == 0) then attr_name a.id rpm ∷ names_of rest else names_of rest

  -- The loop of `AttrByName`.
  unfoldable pub find_named : String → List Attribute → Option Attribute
  find_named name [] = none
  find_named name (a ∷ rest) =
      if not (a.id == 0) && str_eq (attr_name a.id rpm) name then some a else find_named name rest

unfoldable pub attr_names : SmartValues → ℕ → List String
unfolding names_of
attr_names sv rpm = names_of rpm sv.attributes

unfoldable pub attr_by_name : SmartValues → String → ℕ → Option Attribute
unfolding find_named
attr_by_name sv name rpm = find_named rpm name sv.attributes

-- A slot is present under a name.
abbrev pub Named : ℕ → String → Attribute → Type 0
Named rpm name a = (a.id ≢ 0) × (attr_name a.id rpm ≡ name)

is_some-find_named :
    (rpm : ℕ) (name : String) (rest : List Attribute)
    → is_some (find_named rpm name rest) ≡ contains name (names_of rpm rest)
unfolding find_named names_of
is_some-find_named rpm name [] = refl
is_some-find_named rpm name (a ∷ rest) = ground (arith, is_some-find_named rpm name rest)

-- Get mode finds a field exactly when list mode prints its name.
pub is_some-attr_by_name :
    (sv : SmartValues) (name : String) (rpm : ℕ)
    → is_some (attr_by_name sv name rpm) ≡ contains name (attr_names sv rpm)
unfolding attr_by_name attr_names
is_some-attr_by_name sv name rpm = is_some-find_named rpm name sv.attributes

-- What `AttrByName` returns, found or not.
abbrev pub IsFirst : ℕ → String → List Attribute → Option Attribute → Type 0
IsFirst rpm name all none = All (λ b. ¬ (Named rpm name b)) all
IsFirst rpm name all (some a) =
    (front back : List Attribute) × (all ≡ front ++ (a ∷ back))
    × All (λ b. ¬ (Named rpm name b)) front
    × Named rpm name a

IsFirst-cons :
    (rpm : ℕ) (name : String) (a : Attribute) (rest : List Attribute) (r : Option Attribute)
    → ¬ (Named rpm name a)
    → IsFirst rpm name rest r
    → IsFirst rpm name (a ∷ rest) r
IsFirst-cons rpm name a rest none h f = (h, f)
IsFirst-cons rpm name a rest (some b) h (front, back, e, before, named) =
    (a ∷ front, back, ap (λ l. a ∷ l) e, (h, before), named)

-- The test of the loop.
matches : ℕ → String → Attribute → Bool
matches rpm name a = not (a.id == 0) && str_eq (attr_name a.id rpm) name

matches-Named :
    (rpm : ℕ) (name : String) (a : Attribute) → matches rpm name a ≡ true → Named rpm name a
unfolding matches
matches-Named rpm name a e = ground (arith, eq_iff (attr_name a.id rpm) name)

matches-not_Named :
    (rpm : ℕ) (name : String) (a : Attribute) → matches rpm name a ≡ false → ¬ (Named rpm name a)
unfolding matches
matches-not_Named rpm name a e n = ground (arith, eq_iff (attr_name a.id rpm) name, n.0, n.1)

find_named-IsFirst :
    (rpm : ℕ) (name : String) (rest : List Attribute)
    → IsFirst rpm name rest (find_named rpm name rest)
unfolding find_named matches
find_named-IsFirst rpm name [] = tt
find_named-IsFirst rpm name (a ∷ rest) = elim (Bool-cases (matches rpm name a)) [
  | inl e ↦ rw e ([], rest, refl, tt, matches-Named rpm name a e)
  | inr e ↦ rw e (
      IsFirst-cons rpm name a rest (find_named rpm name rest) (matches-not_Named rpm name a e)
        (find_named-IsFirst rpm name rest))
]

-- `AttrByName` returns the first slot that is in use under the name, and nil exactly when no slot
-- is.
pub attr_by_name-IsFirst :
    (sv : SmartValues) (name : String) (rpm : ℕ)
    → IsFirst rpm name sv.attributes (attr_by_name sv name rpm)
unfolding attr_by_name
attr_by_name-IsFirst sv name rpm = find_named-IsFirst rpm name sv.attributes
