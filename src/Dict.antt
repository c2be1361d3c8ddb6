-- ===== src/Dict.antt =====
-- A plain JavaScript object used as a table: its own properties in insertion order.
use dev_box.Prelude.{
  ◌≡◌, refl, List, [], ◌∷◌, Option, none, some, Bool, true, false, if◌then◌else◌, arith, inl, inr,
}
use dev_box.Text.{Text, text_eq}
use dev_box.Text.Equality.{text_eq_iff, text_eq_refl, text_eq-cases}

module _ {ℓ} {V : Type ℓ} where
  -- table[key]
  unfoldable pub lookup : Text → List (Text × V) → Option V
  lookup key [] = none
  lookup key ((k, v) ∷ rest) = if text_eq k key then some v else lookup key rest

  -- { ...table, [key]: value }
  unfoldable pub insert : Text → V → List (Text × V) → List (Text × V)
  insert key value [] = (key, value) ∷ []
  insert key value ((k, v) ∷ rest) =
      if text_eq k key then (k, value) ∷ rest else (k, v) ∷ insert key value rest

  -- Boolean(table[key]) where the values are objects
  unfoldable pub has : Text → List (Text × V) → Bool
  unfolding lookup
  has key table = elim (lookup key table) [ none ↦ false | some _ ↦ true ]

  pub lookup-insert :
      (key other : Text) (value : V) (table : List (Text × V))
      → lookup other (insert key value table)
        ≡ (if text_eq key other then some value else lookup other table)
  unfolding lookup insert
  lookup-insert key other value [] = refl
  lookup-insert key other value ((k, v) ∷ rest) = ground (
    arith,
    text_eq_iff k key,
    text_eq_iff k other,
    text_eq_iff key other,
    lookup-insert key other value rest,
  )

  pub lookup-insert_self :
      (key : Text) (value : V) (table : List (Text × V))
      → lookup key (insert key value table) ≡ some value
  lookup-insert_self key value table = rw (lookup-insert, text_eq_refl key)

  pub lookup-insert_same :
      (key other : Text) (value : V) (table : List (Text × V))
      → text_eq key other ≡ true
      → lookup other (insert key value table) ≡ some value
  lookup-insert_same key other value table e = rw (lookup-insert, e) refl

  pub lookup-insert_other :
      (key other : Text) (value : V) (table : List (Text × V))
      → text_eq key other ≡ false
      → lookup other (insert key value table) ≡ lookup other table
  lookup-insert_other key other value table e = rw (lookup-insert, e) refl

  pub lookup-singleton :
      (k key : Text) (v w : V) → lookup key ((k, v) ∷ []) ≡ some w → (k ≡ key) × (v ≡ w)
  unfolding lookup
  lookup-singleton k key v w e = elim (text_eq-cases k key) [
    | inl (same, p) ↦ (p, ground arith)
    | inr (differs, _) ↦ absurd (ground arith)
  ]
