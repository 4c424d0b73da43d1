-- ===== src/GoMap.antt =====
-- Go's maps over any key type with a test for equality, as association lists: reads, writes and
-- `delete`. The code that uses them here never depends on the order of entries.
use Prim.Native.String.{String}
use text.Mathlib.Text.{◌==◌ as str_eq}
use text.Mathlib.TextEquality.{eq_iff}
use mit6_824_labs.Prelude.{
  ℕ, ◌≡◌, ◌↔◌, refl, Bool, true, Option, none, some, List, [], ◌∷◌, arith, ◌==◌ as nat_beq, ==_iff,
  if◌then◌else◌,
}
use mit6_824_labs.Prelude.Int.{ℤ, ◌==ℤ◌, ==ℤ→eq, ==ℤ_refl}

-- A key type with Go's ==.
pub record Eq (Key : Type 0) : Type 0 where
  pub equals : Key → Key → Bool
  pub equals_iff : (x y : Key) → (equals x y ≡ true) ↔ (x ≡ y)

infix 50 ◌==◌
abbrev pub ◌==◌ : {Key : Type 0} ⦃keys : Eq Key⦄ → Key → Key → Bool
◌==◌ ⦃keys⦄ x y = keys.equals x y

-- string keys
instance abbrev pub string_eq : Eq String
string_eq = record { equals = str_eq; equals_iff = eq_iff }

-- int and int64 keys that are never negative
instance abbrev pub nat_eq : Eq ℕ
nat_eq = record { equals = nat_beq; equals_iff = ==_iff }

pub ==ℤ_iff : (a b : ℤ) → ((a ==ℤ b) ≡ true) ↔ (a ≡ b)
==ℤ_iff a b = (==ℤ→eq a b, λ h. ground (arith, h, ==ℤ_refl a))

-- int keys
instance abbrev pub int_eq : Eq ℤ
int_eq = record { equals = ◌==ℤ◌; equals_iff = ==ℤ_iff }

abbrev pub GoMap : Type 0 → Type 0 → Type 0
GoMap Key Value = List (Key × Value)

pub equals_refl : {Key : Type 0} ⦃keys : Eq Key⦄ (x : Key) → (x == x) ≡ true
equals_refl ⦃keys⦄ x = (keys.equals_iff x x).1 refl

module _ {Key Value : Type 0} ⦃keys : Eq Key⦄ where
  -- delete(m, key)
  unfoldable pub delete : Key → GoMap Key Value → GoMap Key Value
  delete key [] = []
  delete key (entry ∷ m) = let rest = delete key m in if entry.0 == key then rest else entry ∷ rest

  -- value, ok := m[key]
  unfoldable pub lookup : Key → GoMap Key Value → Option Value
  lookup key [] = none
  lookup key (entry ∷ m) = let rest = lookup key m in if entry.0 == key then some entry.1 else rest

  -- m[key] = value
  unfoldable pub insert : Key → Value → GoMap Key Value → GoMap Key Value
  insert key value [] = (key, value) ∷ []
  insert key value (entry ∷ m) =
      let rest = insert key value m in if entry.0 == key then (key, value) ∷ m else entry ∷ rest

  pub lookup-delete :
      (key asked : Key) (m : GoMap Key Value)
      → lookup asked (delete key m) ≡ (if key == asked then none else lookup asked m)
  unfolding lookup delete
  lookup-delete key asked [] = ground arith
  lookup-delete key asked (entry ∷ m) = ground (
    arith,
    lookup-delete key asked m,
    keys.equals_iff entry.0 asked,
    keys.equals_iff entry.0 key,
    keys.equals_iff key asked,
  )

  pub lookup-insert :
      (key asked : Key) (value : Value) (m : GoMap Key Value)
      → lookup asked (insert key value m) ≡ (if key == asked then some value else lookup asked m)
  unfolding lookup insert
  lookup-insert key asked value [] = refl
  lookup-insert key asked value (entry ∷ m) = ground (
    arith,
    lookup-insert key asked value m,
    keys.equals_iff entry.0 asked,
    keys.equals_iff entry.0 key,
    keys.equals_iff key asked,
  )
