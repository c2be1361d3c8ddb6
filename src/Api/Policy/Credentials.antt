-- ===== src/Api/Policy/Credentials.antt =====
-- A URL that carries credentials is refused before anything else is looked at.
use dev_box.Prelude.{
  Bool, true, false, ◌||◌, List, [], ◌∷◌, ◌≡◌, ◌↔◌, refl, arith, Bool-cases, inl, inr,
}
use dev_box.Text.{Text, truthy}
use dev_box.Api.Policy.{RequestPolicy, Url, evaluate_target}

no_credentials_iff :
    (user password : Text)
    → (truthy user || truthy password) ≡ false ↔ ((user ≡ []) × (password ≡ []))
no_credentials_iff [] [] = (λ h. (refl, refl), λ h. refl)
no_credentials_iff [] (c ∷ s) = (λ h. ground arith, λ h. ground arith)
no_credentials_iff (c ∷ s) password = (λ h. ground arith, λ h. ground arith)

-- What holds of a URL without credentials, extended to all.
pub with_credentials {ℓ} :
    (confirmed : List Text) (url : Url) (policy : RequestPolicy) (P : Type ℓ)
    → ((truthy url.username || truthy url.password) ≡ false
        → (evaluate_target confirmed url policy).allowed ≡ true ↔ P)
    → (evaluate_target confirmed url policy).allowed ≡ true
      ↔ ((url.username ≡ []) × (url.password ≡ []) × P)
unfolding evaluate_target
with_credentials confirmed url policy P h =
    let (to, from) = no_credentials_iff url.username url.password in
    elim (Bool-cases (truthy url.username || truthy url.password)) [
      | inl secret ↦
          rw secret (λ e. absurd (clash e), λ e. absurd (differ secret (from (e.0, e.1))))
      | inr plain ↦
          let (pass, back) = h plain in (λ e. ((to plain).0, (to plain).1, pass e), λ e. back e.2)
    ]
  where
    clash : false ≡ true → ⊥
    clash e = ground arith

    differ : {b : Bool} → b ≡ true → b ≡ false → ⊥
    differ e e' = ground arith
