-- ===== src/Printer/Attributes/Rows.antt =====
-- What the attribute table holds: its rows against the slots in use, and the column WHEN_FAILED.
use go_smartmontools.Base.{
  ℕ, suc, ◌≤◌, ◌<◌, ◌≡◌, ◌≢◌, ◌↔◌, ◌⊎◌, refl, ap, arith, ◌==◌, if◌then◌else◌, List, [], ◌∷◌, ◌++◌,
  map, length, get_or, Bytes, ok, index-get_or, ◌+◌, lit, Bool-cases, inl, inr,
}
use go_smartmontools.Ata.Attribute.{Attribute}
use go_smartmontools.Ata.Attr.{attr_name}
use go_smartmontools.Ata.Smart.{SmartValues}
use go_smartmontools.Ata.Lookup.{names_of, attr_names}
use go_smartmontools.Ata.Thresholds.{SmartThresholds}
use go_smartmontools.Printer.Attributes.{when_failed, attribute_row, attribute_rows}

-- The slots in use, each with the threshold of its position.
abbrev pub in_use : SmartThresholds → ℕ → List Attribute → List (Attribute × ℕ)
in_use st i [] = []
in_use st i (a ∷ rest) =
    let others = in_use st (suc i) rest in
    if a.id == 0 then others else (a, get_or st.thresholds i 0) ∷ others

abbrev pub joined : List Bytes → Bytes
joined [] = []
joined (b ∷ bs) = b ++ joined bs

rows_in_use :
    (rpm : ℕ) (st : SmartThresholds) (i : ℕ) (all : List Attribute)
    → i + length all ≤ length st.thresholds
    → attribute_rows rpm st i all
      ≡ ok (joined (map (λ p. attribute_row rpm p.0 p.1) (in_use st i all)))
unfolding attribute_rows
rows_in_use rpm st i [] h = refl
rows_in_use rpm st i (a ∷ rest) h = elim (Bool-cases (a.id == 0)) [
  | inl e ↦ rw e (rows_in_use rpm st (suc i) rest (omega arith))
  | inr e ↦
      rw
        (
          e,
          index-get_or st.thresholds i 0 (omega arith),
          rows_in_use rpm st (suc i) rest (omega arith),
        )
        refl
]

names_in_use :
    (rpm : ℕ) (st : SmartThresholds) (i : ℕ) (all : List Attribute)
    → map (λ p. attr_name p.0.id rpm) (in_use st i all) ≡ names_of rpm all
unfolding names_of
names_in_use rpm st i [] = refl
names_in_use rpm st i (a ∷ rest) = elim (Bool-cases (a.id == 0)) [
  | inl e ↦ rw e (names_in_use rpm st (suc i) rest)
  | inr e ↦ rw e (ap (λ l. attr_name a.id rpm ∷ l) (names_in_use rpm st (suc i) rest))
]

-- With as many thresholds as there are attributes, or more, no read of a threshold is out of range;
-- the table has one row for each slot in use, in order, with the threshold that stands at the same
-- position; and the names of those slots are the list that list mode prints.
pub attribute_rows-in_use :
    (sv : SmartValues) (st : SmartThresholds) (rpm : ℕ)
    → length sv.attributes ≤ length st.thresholds
    → (attribute_rows rpm st 0 sv.attributes
        ≡ ok (joined (map (λ p. attribute_row rpm p.0 p.1) (in_use st 0 sv.attributes))))
      × (map (λ p. attr_name p.0.id rpm) (in_use st 0 sv.attributes) ≡ attr_names sv rpm)
unfolding attr_names
attribute_rows-in_use sv st rpm h =
    (rows_in_use rpm st 0 sv.attributes (omega arith), names_in_use rpm st 0 sv.attributes)

-- Any two of the three texts differ.
texts_differ :
    (lit "FAILING_NOW" ≢ lit "In_the_past")
    × (lit "FAILING_NOW" ≢ lit "-")
    × (lit "In_the_past" ≢ lit "-")
unfolding lit
texts_differ = (ground arith, ground arith, ground arith)

-- FAILING_NOW exactly when the attribute has a threshold and its value is at or below it;
-- In_the_past exactly when it has a threshold, its value is above it, and its worst value is not;
-- and the dash exactly when it has no threshold, or both lie above it.
pub when_failed_iff :
    (a : Attribute) (t : ℕ)
    → ((when_failed a t ≡ lit "FAILING_NOW") ↔ ((0 < t) × (a.current ≤ t)))
      × ((when_failed a t ≡ lit "In_the_past") ↔ ((0 < t) × (t < a.current) × (a.worst ≤ t)))
      × ((when_failed a t ≡ lit "-") ↔ ((t ≡ 0) ⊎ ((t < a.current) × (t < a.worst))))
unfolding when_failed
when_failed_iff a t =
    (grind (arith, texts_differ), grind (arith, texts_differ), grind (arith, texts_differ))
