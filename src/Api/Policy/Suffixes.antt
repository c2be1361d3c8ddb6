-- ===== src/Api/Policy/Suffixes.antt =====
-- The suffix test of the request policy, as a statement about texts.
use dev_box.Prelude.{
  ◌≢◌, Option, none, some, Bool, true, false, List, [], ◌∷◌, ◌++◌, ◌≡◌, ◌↔◌, ◌⊎◌, inl, inr, refl,
  arith, Bool-cases, In, sym, ap, ◌∙◌, reverse, ◌==◌,
}
use mathlib.Core.List.{reverse-append, reverse-reverse}
use mathlib.Core.Path.{subst}
use dev_box.Text.{Text, codes, text_eq, starts_with}
use dev_box.Text.Equality.{text_eq_iff}
use dev_box.Text.Split.{ends_with}
use dev_box.Api.Policy.{bare, suffix_matches, has_approved_suffix, suffixes_of, default_suffixes}

pub starts_with_iff : (s p : Text) → (starts_with s p ≡ true) ↔ ((rest : Text) × (s ≡ p ++ rest))
unfolding starts_with
starts_with_iff s [] = (λ h. (s, refl), λ h. refl)
starts_with_iff [] (p ∷ prefix) = (λ h. ground arith, λ h. ground arith)
starts_with_iff (c ∷ s) (p ∷ prefix) = elim (Bool-cases (c == p)) [
  | inl same ↦
      let (to, from) = starts_with_iff s prefix in
      rw same (
        λ h. let (rest, e) = to h in (rest, ground arith),
        λ h. let (rest, e) = h in from (rest, ground arith),
      )
  | inr other ↦ rw other (λ h. ground arith, λ h. let (rest, e) = h in ground arith)
]

pub ends_with_iff : (s p : Text) → (ends_with s p ≡ true) ↔ ((front : Text) × (s ≡ front ++ p))
unfolding ends_with
ends_with_iff s p =
    let (to, from) = starts_with_iff (reverse s) (reverse p) in
    (
      λ h.
          let (rest, e) = to h in
          (
            reverse rest,
            sym (reverse-reverse s)
                ∙ ap reverse e
                ∙ reverse-append (reverse p) rest
                ∙ ap (λ t. reverse rest ++ t) (reverse-reverse p),
          ),
      λ h. let (front, e) = h in from (reverse front, ap reverse e ∙ reverse-append front p),
    )

-- The name is the suffix, less a leading dot, or ends in it behind a dot.
abbrev pub IsUnder : Text → Text → Type 0
IsUnder hostname suffix =
    (hostname ≡ bare suffix) ⊎ ((front : Text) × (hostname ≡ front ++ b'.' ∷ bare suffix))

pub suffix_matches_iff :
    (hostname suffix : Text) → (suffix_matches hostname suffix ≡ true) ↔ IsUnder hostname suffix
unfolding suffix_matches
suffix_matches_iff hostname suffix =
    let (same, back) = text_eq_iff hostname (bare suffix) in
    let (ends, from) = ends_with_iff hostname (b'.' ∷ bare suffix) in
    elim (Bool-cases (text_eq hostname (bare suffix))) [
      | inl equal ↦ rw equal (λ h. inl (same equal), λ h. refl)
      | inr other ↦
          rw other
            (λ h. inr (ends h), λ h. elim h [ inl e ↦ absurd (ne (back e) other) | inr e ↦ from e ])
    ]
  where
    ne : {b : Bool} → b ≡ true → b ≡ false → ⊥
    ne h h' = ground arith

-- A suffix of the list that the name is under.
abbrev pub IsApproved : Text → List Text → Type 0
IsApproved hostname suffixes = (suffix : Text) × (In suffix suffixes × IsUnder hostname suffix)

pub has_approved_suffix_iff :
    (hostname : Text) (suffixes : List Text)
    → (has_approved_suffix hostname suffixes ≡ true) ↔ IsApproved hostname suffixes
unfolding has_approved_suffix
has_approved_suffix_iff hostname [] = (λ h. ground arith, λ h. absurd h.1.0)
has_approved_suffix_iff hostname (suffix ∷ suffixes) =
    let (to, from) = has_approved_suffix_iff hostname suffixes in
    let (to', from') = suffix_matches_iff hostname suffix in
    elim (Bool-cases (suffix_matches hostname suffix)) [
      | inl under ↦ rw under (λ h. (suffix, (inl refl, to' under)), λ h. refl)
      | inr other ↦ rw other (
        λ h. let (s, (m, u)) = to h in (s, (inr m, u)),
        λ h.
            let (s, (m, u)) = h in
            elim m [
              | inl e ↦ cc (from' (subst (IsUnder hostname) e u), other)
              | inr later ↦ from (s, (later, u))
            ],
      )
    ]

-- A suffix of a policy and the name that it stands for: less a dot that it begins with.
abbrev pub Undotted : Text → Text → Type 0
Undotted [] name = name ≡ []
Undotted (c ∷ s) name = ((c ≡ b'.') × (name ≡ s)) ⊎ ((c ≢ b'.') × (name ≡ c ∷ s))

Undotted-bare : (suffix : Text) → Undotted suffix (bare suffix)
unfolding bare starts_with
Undotted-bare [] = refl
Undotted-bare (c ∷ s) = elim (Bool-cases (c == b'.')) [
  | inl dot ↦ rw dot (inl (ground arith, refl))
  | inr other ↦ rw other (inr (ground arith, refl))
]

bare_unique : (suffix name : Text) → Undotted suffix name → name ≡ bare suffix
unfolding bare starts_with
bare_unique [] name e = e
bare_unique (c ∷ s) name (inl (dot, e)) =
    let test : (c == b'.') ≡ true = ground (arith, dot) in rw test e
bare_unique (c ∷ s) name (inr (other, e)) =
    let test : (c == b'.') ≡ false = ground (arith, other) in rw test e

-- The suffixes of a policy: its own, or the four of a policy that has none.
abbrev pub Lists : Option (List Text) → Text → Type 0
Lists (some suffixes) suffix = In suffix suffixes
Lists none suffix =
    (suffix ≡ codes "local")
    ⊎ (suffix ≡ codes "internal")
    ⊎ (suffix ≡ codes "test")
    ⊎ (suffix ≡ codes "home.arpa")

-- The host is the name of a suffix of the policy, or ends in it behind a dot.
abbrev pub Admits : Option (List Text) → Text → Type 0
Admits own hostname =
    (suffix : Text) × (name : Text) × Lists own suffix
    × Undotted suffix name
    × ((hostname ≡ name) ⊎ ((front : Text) × (hostname ≡ front ++ b'.' ∷ name)))

Lists-iff :
    (own : Option (List Text)) (suffix : Text) → In suffix (suffixes_of own) ↔ Lists own suffix
unfolding suffixes_of default_suffixes
Lists-iff (some suffixes) suffix = (λ m. m, λ m. m)
Lists-iff none suffix = (
  λ m. elim m [
    | inl a ↦ inl a
    | inr m ↦ elim m [
      | inl b ↦ inr (inl b)
      | inr m ↦ elim m [
        | inl c ↦ inr (inr (inl c))
        | inr m ↦ elim m [ inl d ↦ inr (inr (inr d)) | inr none' ↦ absurd none' ]
      ]
    ]
  ],
  λ m. elim m [
    | inl a ↦ inl a
    | inr m ↦ elim m [
      | inl b ↦ inr (inl b)
      | inr m ↦ elim m [ inl c ↦ inr (inr (inl c)) | inr d ↦ inr (inr (inr (inl d))) ]
    ]
  ],
)

pub Admits-iff :
    (own : Option (List Text)) (hostname : Text)
    → IsApproved hostname (suffixes_of own) ↔ Admits own hostname
Admits-iff own hostname = (
  λ (suffix, (m, under)).
      (suffix, bare suffix, (Lists-iff own suffix).0 m, Undotted-bare suffix, under),
  λ (suffix, name, m, stands, under).
      let e = bare_unique suffix name stands in
      (
        suffix,
        (
          (Lists-iff own suffix).1 m,
          subst (λ n. (hostname ≡ n) ⊎ ((front : Text) × (hostname ≡ front ++ b'.' ∷ n))) e under,
        ),
      ),
)
