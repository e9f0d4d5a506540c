-- ===== src/Ata/Attr/Names.antt =====
-- What `AttrName` promises over the whole table of internal/ata/attr.go.
use go_smartmontools.Base.{
  ℕ, ◌<◌, ◌≡◌, refl, arith, Bool, true, ◌&&◌, ◌||◌, ◌==◌, if◌then◌else◌, some, List, [], ◌∷◌,
  bit_and-pow,
}
use go_smartmontools.Ata.Attr.{AttrDef, default_attr_defs, lookup, name_for, attr_name}

-- At most one of the two restrictions.
abbrev is_restricted : AttrDef → Bool
is_restricted def = def.flags == 0 || def.flags == 1 || def.flags == 2

all_defs : (AttrDef → Bool) → List (ℕ × AttrDef) → Bool
all_defs p [] = true
all_defs p ((k, v) ∷ m) = p v && all_defs p m

lookup-all_defs :
    (p : AttrDef → Bool) (id : ℕ) (m : List (ℕ × AttrDef)) {def : AttrDef}
    → all_defs p m ≡ true
    → lookup id m ≡ some def
    → p def ≡ true
unfolding all_defs lookup
lookup-all_defs p id [] h e = absurd (cc)
lookup-all_defs p id ((k, v) ∷ m) {def} h e = ground (arith, lookup-all_defs p id m {def = def})

table_restricted : all_defs is_restricted default_attr_defs ≡ true
unfolding all_defs default_attr_defs
table_restricted = refl

name_for-restricted :
    (def : AttrDef) (rpm : ℕ)
    → is_restricted def ≡ true
    → 1 < rpm
    → (name_for 0 (some def) ≡ def.name)
      × (name_for 1 (some def) ≡ (if def.flags == 1 then "Unknown_SSD_Attribute" else def.name))
      × (name_for rpm (some def) ≡ (if def.flags == 2 then "Unknown_HDD_Attribute" else def.name))
unfolding name_for
name_for-restricted def rpm h fast = (
  ground (arith, bit_and-pow 0 def.flags, bit_and-pow 1 def.flags),
  ground (arith, bit_and-pow 0 def.flags, bit_and-pow 1 def.flags),
  ground (arith, bit_and-pow 0 def.flags, bit_and-pow 1 def.flags),
)

-- An ID that the table knows keeps its name where the rotation rate is unknown (0). On an SSD (1)
-- it loses it exactly if it is marked for HDDs, and on an HDD (more than 1) exactly if it is
-- marked for SSDs.
pub attr_name_known :
    (id rpm : ℕ) {def : AttrDef}
    → lookup id default_attr_defs ≡ some def
    → 1 < rpm
    → (attr_name id 0 ≡ def.name)
      × (attr_name id 1 ≡ (if def.flags == 1 then "Unknown_SSD_Attribute" else def.name))
      × (attr_name id rpm ≡ (if def.flags == 2 then "Unknown_HDD_Attribute" else def.name))
unfolding attr_name
attr_name_known id rpm {def} e fast = rw e (
    name_for-restricted def rpm
      (lookup-all_defs is_restricted id default_attr_defs {def = def} table_restricted e) fast)
