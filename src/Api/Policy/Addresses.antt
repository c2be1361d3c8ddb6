-- ===== src/Api/Policy/Addresses.antt =====
-- Which dotted addresses the request policy lets through, in numbers.
use dev_box.Prelude.{
  ℕ, ◌≤◌, ◌≡◌, ◌↔◌, ◌⊎◌, refl, List, [], ◌∷◌, ◌++◌, arith, Bool, true, false, ap, Bool-cases, inl,
  inr, All, some, none, ◌∙◌, sym, ◌||◌, ◌==◌,
}
use mathlib.Core.Path.{subst}
use dev_box.Prelude.Int.{pos}
use dev_box.Text.{Text, codes, text_eq, starts_with, truthy}
use dev_box.Text.Decimal.{decimal}
use dev_box.Text.Decimal.Reading.{IsDigit, decimal-All, decimal-cons, parse_int-decimal}
use dev_box.Text.Equality.{text_eq_sound}
use dev_box.Text.Split.{split, parse_int}
use dev_box.Api.Policy.Credentials.{with_credentials}
use dev_box.Api.Policy.{
  RequestPolicy, Url, evaluate_target, evaluate_host, permit, is_loopback, is_link_local_host,
  is_link_local_ipv4, is_private_or_loopback_ipv4, is_private, is_link_local,
}
use dev_box.Api.Policy.Suffixes.{starts_with_iff}
use dev_box.Api.Policy.Dotted.{
  dotted, split-dotted, to_lower-dotted, is_ipv4-dotted, four_parts-dotted,
}

-- 127.0.0.0/8, 10.0.0.0/8, 172.16.0.0/12 and 192.168.0.0/16, by the first two numbers.
pub IsLocal : (a b : ℕ) → Type 0
IsLocal a b = (a ≡ 127) ⊎ (a ≡ 10) ⊎ ((a ≡ 172) × (16 ≤ b) × (b ≤ 31)) ⊎ ((a ≡ 192) × (b ≡ 168))

is_private-IsLocal : (a b : ℕ) → (is_private (pos a) (pos b) ≡ true) ↔ IsLocal a b
unfolding IsLocal
is_private-IsLocal a b = (λ h. ground arith, λ h. ground arith)

-- An address starts with a digit, and what stands before its first dot is its first number.
first_part-dotted :
    (a b c d : ℕ) (s rest : Text) (parts : List Text)
    → dotted a b c d ≡ s
    → split b'.' s ≡ rest ∷ parts
    → parse_int rest ≡ some (pos a)
first_part-dotted a b c d s rest parts e e' =
    let heads : decimal a ∷ decimal b ∷ decimal c ∷ decimal d ∷ [] ≡ rest ∷ parts =
      sym (split-dotted a b c d) ∙ ap (split b'.') e ∙ e' in
    let same : decimal a ≡ rest = cc in ap parse_int (sym same) ∙ parse_int-decimal a

starts-127 : (a b c d : ℕ) → starts_with (dotted a b c d) (codes "127.") ≡ true → a ≡ 127
unfolding split parse_int
starts-127 a b c d h =
    let (rest, e) = (starts_with_iff (dotted a b c d) (codes "127.")).0 h in
    let read : some (pos 127) ≡ some (pos a) =
      first_part-dotted a b c d (codes "127." ++ rest) (codes "127") (split b'.' rest) e refl in
    ground arith

is-literal :
    (a b c d : ℕ) (s rest : Text) (parts : List Text)
    → split b'.' s ≡ rest ∷ parts
    → text_eq (dotted a b c d) s ≡ true
    → parse_int rest ≡ some (pos a)
is-literal a b c d s rest parts e h =
    first_part-dotted a b c d s rest parts (text_eq_sound (dotted a b c d) s h) e

is_loopback-dotted : (a b c d : ℕ) → is_loopback (dotted a b c d) ≡ true → a ≡ 127
unfolding is_loopback split parse_int
is_loopback-dotted a b c d h =
    let name : text_eq (dotted a b c d) (codes "localhost") ≡ true → none ≡ some (pos a) =
      is-literal a b c d (codes "localhost") (codes "localhost") [] refl in
    let home : text_eq (dotted a b c d) (codes "127.0.0.1") ≡ true → some (pos 127) ≡ some (pos a) =
      is-literal a b c d (codes "127.0.0.1") (codes "127") (codes "0" ∷ codes "0" ∷ codes "1" ∷ [])
        refl in
    let six : text_eq (dotted a b c d) (codes "::1") ≡ true → none ≡ some (pos a) =
      is-literal a b c d (codes "::1") (codes "::1") [] refl in
    let bracketed : text_eq (dotted a b c d) (codes "[::1]") ≡ true → none ≡ some (pos a) =
      is-literal a b c d (codes "[::1]") (codes "[::1]") [] refl in
    let prefixed = starts-127 a b c d in ground arith

starts-fe80 : (a b c d : ℕ) → starts_with (dotted a b c d) (codes "fe80:") ≡ false
unfolding starts_with
starts-fe80 a b c d =
    let (digit, s, e) = decimal-cons a in
    let (range, _) : All IsDigit (digit ∷ s) = subst (All IsDigit) e (decimal-All a) in
    let other : (digit == b'f') ≡ false = ground arith in rw (e, other) refl

only_first : (x y z : Bool) → y ≡ false → z ≡ false → (x || y || z) ≡ x
only_first x y z hy hz = ground arith

fe80_split : split b'.' (codes "fe80::") ≡ codes "fe80::" ∷ []
unfolding split
fe80_split = refl

is_link_local_host-numbers :
    (a b c d : ℕ)
    → a ≤ 255
    → b ≤ 255
    → c ≤ 255
    → d ≤ 255
    → is_link_local_host (dotted a b c d) ≡ is_link_local (pos a) (pos b)
unfolding is_link_local_host is_link_local_ipv4 parse_int
is_link_local_host-numbers a b c d ha hb hc hd =
    elim (Bool-cases (text_eq (dotted a b c d) (codes "fe80::"))) [
      | inl h ↦
          let read : none ≡ some (pos a) =
            is-literal a b c d (codes "fe80::") (codes "fe80::") [] fe80_split h in
          ground arith
      | inr h ↦
          only_first (is_link_local_ipv4 (dotted a b c d)) _ _ h (starts-fe80 a b c d)
          ∙ four_parts-dotted is_link_local a b c d ha hb hc hd
    ]

is_link_local-dotted :
    (a b c d : ℕ)
    → a ≤ 255
    → b ≤ 255
    → c ≤ 255
    → d ≤ 255
    → (is_link_local_host (dotted a b c d) ≡ true) ↔ ((a ≡ 169) × (b ≡ 254))
is_link_local-dotted a b c d ha hb hc hd =
    rw (is_link_local_host-numbers a b c d ha hb hc hd) (λ h. ground arith, λ h. ground arith)

-- Without credentials, only the local addresses pass.
address_passes :
    (confirmed : List Text) (url : Url) (policy : RequestPolicy) (a b c d : ℕ)
    → a ≤ 255
    → b ≤ 255
    → c ≤ 255
    → d ≤ 255
    → (truthy url.username || truthy url.password) ≡ false
    → url.hostname ≡ dotted a b c d
    → (evaluate_target confirmed url policy).allowed ≡ true ↔ IsLocal a b
unfolding evaluate_target evaluate_host permit is_private_or_loopback_ipv4 IsLocal
address_passes confirmed url policy a b c d ha hb hc hd plain host =
    rw (plain, host, to_lower-dotted a b c d)
      (elim (Bool-cases (is_link_local_host (dotted a b c d))) [
        | inl linked ↦
            let numbers = (is_link_local-dotted a b c d ha hb hc hd).0 linked in
            rw linked (λ h. ground arith, λ h. ground arith)
        | inr unlinked ↦ elim (Bool-cases (is_loopback (dotted a b c d))) [
          | inl loops ↦
              let first = is_loopback-dotted a b c d loops in
              rw (unlinked, loops) (λ h. ground arith, λ h. refl)
          | inr leaves ↦
              let literal = is_ipv4-dotted a b c d ha hb hc hd in
              let numbers = four_parts-dotted is_private a b c d ha hb hc hd in
              let (to, from) = is_private-IsLocal a b in
              elim (Bool-cases (is_private (pos a) (pos b))) [
                | inl local ↦
                    rw (unlinked, leaves, literal, numbers, local) (λ h. to local, λ h. refl)
                | inr public ↦
                    rw (unlinked, leaves, literal, numbers, public)
                      (λ h. ground arith, λ h. cc (from h, public))
              ]
        ]
      ])

-- A target whose host is a dotted address of four numbers up to 255 is allowed exactly when its URL
-- has no user name and no password and the address lies in 127.0.0.0/8, 10.0.0.0/8, 172.16.0.0/12 or
-- 192.168.0.0/16, whatever the policy says and the session has confirmed.
pub address_allowed_iff :
    (confirmed : List Text) (url : Url) (policy : RequestPolicy) (a b c d : ℕ)
    → a ≤ 255
    → b ≤ 255
    → c ≤ 255
    → d ≤ 255
    → url.hostname ≡ dotted a b c d
    → (evaluate_target confirmed url policy).allowed ≡ true
      ↔ ((url.username ≡ []) × (url.password ≡ []) × IsLocal a b)
address_allowed_iff confirmed url policy a b c d ha hb hc hd host =
    with_credentials confirmed url policy (IsLocal a b)
      (λ plain. address_passes confirmed url policy a b c d ha hb hc hd plain host)
