-- ===== src/Api/Policy/Confirmation.antt =====
-- The session's memory of confirmed hosts, and what it changes in a decision.
use dev_box.Prelude.{
  true, ◌||◌, List, [], ◌∷◌, ◌≡◌, ◌↔◌, ◌⊎◌, inl, inr, refl, arith, Bool-cases, In, In-append_left,
  In-append_right, In-append_cases, sym, ◌≢◌, none,
}
use mathlib.Core.Path.{subst}
use dev_box.Text.{Text, truthy}
use dev_box.Text.Equality.{text_eq_iff}
use dev_box.Text.Split.{to_lower}
use dev_box.Api.Policy.{
  RequestPolicy, TargetDecision, Url, has_key, is_host_confirmed, confirm_host, host_key, permit,
  evaluate_target, evaluate_host, deny, is_link_local_host, is_loopback, is_ipv4,
  is_private_or_loopback_ipv4, has_approved_suffix, suffixes_of,
}

has_key_iff : (keys : List Text) (key : Text) → (has_key keys key ≡ true) ↔ In key keys
unfolding has_key
has_key_iff [] key = (λ h. ground arith, λ h. absurd h)
has_key_iff (k ∷ keys) key =
    let (to, from) = has_key_iff keys key in
    let (same, back) = text_eq_iff k key in (λ h. ground arith, λ h. ground arith)

In-confirm_host :
    (confirmed : List Text) (host key : Text)
    → In key (confirm_host confirmed host) ↔ (In key confirmed ⊎ (key ≡ to_lower host))
unfolding confirm_host
In-confirm_host confirmed host key =
    let (known, _) = has_key_iff confirmed (to_lower host) in
    elim (Bool-cases (has_key confirmed (to_lower host))) [
      | inl old ↦ rw old (
        λ h. inl h,
        λ h. elim h [ inl m ↦ m | inr e ↦ subst (λ k. In k confirmed) (sym e) (known old) ],
      )
      | inr fresh ↦ rw fresh (
        λ h. elim (In-append_cases key confirmed (to_lower host ∷ []) h) [
          | inl m ↦ inl m
          | inr m ↦ elim m [ inl e ↦ inr e | inr never ↦ absurd never ]
        ],
        λ h. elim h [
          | inl m ↦ In-append_left key confirmed _ m
          | inr e ↦ In-append_right key confirmed _ (inl e)
        ],
      )
    ]

-- A decision is a refusal or a permission, whatever the session has confirmed.
Settled : (List Text → TargetDecision) → Url → Type 0
Settled decide url =
    ((reason : Text) × ((confirmed : List Text) → decide confirmed ≡ deny reason))
    ⊎ ((confirmed : List Text) → decide confirmed ≡ permit confirmed url)

evaluate_host-Settled :
    (url : Url) (policy : RequestPolicy) (hostname : Text)
    → Settled (λ confirmed. evaluate_host confirmed url policy hostname) url
unfolding evaluate_host Settled
evaluate_host-Settled url policy hostname = elim (Bool-cases (is_ipv4 hostname)) [
  | inl literal ↦ elim (Bool-cases (is_private_or_loopback_ipv4 hostname)) [
    | inl private ↦ rw (literal, private) (inr (λ confirmed. refl))
    | inr public ↦ rw (literal, public) (inl (_, λ confirmed. refl))
  ]
  | inr name ↦
      elim (Bool-cases (has_approved_suffix hostname (suffixes_of policy.allowed_dns_suffixes))) [
        | inl approved ↦ rw (name, approved) (inr (λ confirmed. refl))
        | inr unknown ↦ elim (Bool-cases policy.allow_public) [
          | inl opened ↦ rw (name, unknown, opened) (inr (λ confirmed. refl))
          | inr closed ↦ rw (name, unknown, closed) (inl (_, λ confirmed. refl))
        ]
      ]
]

evaluate_target-Settled :
    (url : Url) (policy : RequestPolicy)
    → Settled (λ confirmed. evaluate_target confirmed url policy) url
unfolding evaluate_target Settled
evaluate_target-Settled url policy =
    elim (Bool-cases (truthy url.username || truthy url.password)) [
      | inl secret ↦ rw secret (inl (_, λ confirmed. refl))
      | inr plain ↦ elim (Bool-cases (is_link_local_host (to_lower url.hostname))) [
        | inl linked ↦ rw (plain, linked) (inl (_, λ confirmed. refl))
        | inr unlinked ↦ elim (Bool-cases (is_loopback (to_lower url.hostname))) [
          | inl loops ↦ rw (plain, unlinked, loops) (inr (λ confirmed. refl))
          | inr leaves ↦
              rw (plain, unlinked, leaves)
                (evaluate_host-Settled url policy (to_lower url.hostname))
        ]
      ]
    ]

permit-confirmed :
    (confirmed : List Text) (url : Url)
    → ((permit confirmed url).requires_confirmation ≡ true)
      ↔ ¬ (In (to_lower (host_key url)) confirmed)
unfolding permit is_host_confirmed
permit-confirmed confirmed url =
    let (to, from) = has_key_iff confirmed (to_lower (host_key url)) in
    elim (Bool-cases (has_key confirmed (to_lower (host_key url)))) [
      | inl known ↦ rw known (λ h. ground arith, λ h. absurd (h (to known)))
      | inr fresh ↦ rw fresh (λ h m. cc (from m, fresh), λ h. refl)
    ]

permit-verdict :
    (confirmed : List Text) (url : Url)
    → ((permit confirmed url).allowed ≡ true) × ((permit confirmed url).reason ≡ none)
unfolding permit
permit-verdict confirmed url = (refl, refl)

-- What a confirmation of `host` makes of the decision `before`, where `key` is the target's.
abbrev pub Confirmed : Text → Text → TargetDecision → TargetDecision → Type 0
Confirmed host key before behind =
    (behind.allowed ≡ before.allowed)
    × (behind.reason ≡ before.reason)
    × ((behind.requires_confirmation ≡ true)
        ↔ ((before.requires_confirmation ≡ true) × (to_lower key ≢ to_lower host)))

-- `confirmHost` changes no verdict and no reason. A target asks for a confirmation behind it exactly
-- when it asked before and its host key, in lower case, is not the confirmed one in lower case.
pub confirm_host-evaluate_target :
    (confirmed : List Text) (url : Url) (policy : RequestPolicy) (host : Text)
    → Confirmed host
        (host_key url)
        (evaluate_target confirmed url policy)
        (evaluate_target (confirm_host confirmed host) url policy)
unfolding Settled
confirm_host-evaluate_target confirmed url policy host = elim (evaluate_target-Settled url policy) [
  | inl (reason, same) ↦
      rw (same confirmed, same (confirm_host confirmed host))
        ((refl, refl, (λ h. ground arith, λ h. ground arith)))
  | inr same ↦
      let (to, from) = permit-confirmed confirmed url in
      let (to', from') = permit-confirmed (confirm_host confirmed host) url in
      let (split, join) = In-confirm_host confirmed host (to_lower (host_key url)) in
      let (verdict, reason) = permit-verdict confirmed url in
      let (verdict', reason') = permit-verdict (confirm_host confirmed host) url in
      rw (same confirmed, same (confirm_host confirmed host))
        ((
          cc (verdict, verdict'),
          cc (reason, reason'),
          (
            λ h. (from (λ m. to' h (join (inl m))), λ e. to' h (join (inr e))),
            λ h. from' (λ m. elim (split m) [ inl l ↦ to h.0 l | inr e ↦ h.1 e ]),
          ),
        ))
]
