-- ===== src/Api/Tests.antt =====
-- Runs of the request policy, and the theorems at inputs of their own.
use dev_box.Prelude.{true, false, [], ◌≡◌, ◌↔◌, refl, arith, none}
use dev_box.Text.{Text, codes}
use dev_box.Text.Decimal.{decimal}
use dev_box.Text.Split.{to_lower}
use dev_box.Api.Policy.{
  RequestPolicy, TargetDecision, Url, evaluate_target, confirm_host, host_key, suffixes_of,
  evaluate_host, permit, has_approved_suffix,
}
use dev_box.Api.Policy.Dotted.{dotted}
use dev_box.Api.Policy.Addresses.{IsLocal, address_allowed_iff}
use dev_box.Api.Policy.Confirmation.{Confirmed, confirm_host-evaluate_target}

abbrev default_policy : RequestPolicy
default_policy = record { allowed_dns_suffixes = none; allow_public = false }

abbrev at : Text → Url
at host = record {
  protocol = codes "https:";
  username = [];
  password = [];
  hostname = host;
  port = [];
}

abbrev private_url : Url
private_url = at (codes "172.20.0.1")

private_url-dotted : private_url.hostname ≡ dotted 172 20 0 1
unfolding decimal
private_url-dotted = refl

address_allowed_iff_example :
    (evaluate_target [] private_url default_policy).allowed ≡ true
    ↔ ((private_url.username ≡ []) × (private_url.password ≡ []) × IsLocal 172 20)
address_allowed_iff_example =
    address_allowed_iff [] private_url default_policy 172 20 0 1 (omega arith) (omega arith)
      (omega arith) (omega arith) private_url-dotted

abbrev named_url : Url
named_url = at (codes "NAS.home.arpa")

confirm_host-evaluate_target_example :
    Confirmed
      (host_key named_url)
      (host_key named_url)
      (evaluate_target [] named_url default_policy)
      (evaluate_target (confirm_host [] (host_key named_url)) named_url default_policy)
confirm_host-evaluate_target_example =
    confirm_host-evaluate_target [] named_url default_policy (host_key named_url)

-- The confirmation is asked for once, until the set is cleared.
asked : (evaluate_target [] named_url default_policy).requires_confirmation ≡ true
unfolding evaluate_target evaluate_host suffixes_of has_approved_suffix to_lower
asked = refl

abbrev again : TargetDecision
again = evaluate_target (confirm_host [] (host_key named_url)) named_url default_policy

not_asked_again : again.requires_confirmation ≡ false
unfolding evaluate_target evaluate_host suffixes_of confirm_host host_key permit
not_asked_again = refl

-- A public name passes as a loopback address.
loopback_prefix : (evaluate_target [] (at (codes "127.example.com")) default_policy).allowed ≡ true
unfolding evaluate_target
loopback_prefix = refl

-- The browser writes an IPv6 host in brackets, which the link-local test does not expect.
abbrev open_policy : RequestPolicy
open_policy = record { allowed_dns_suffixes = none; allow_public = true }

bracketed_link_local : (evaluate_target [] (at (codes "[fe80::1]")) open_policy).allowed ≡ true
unfolding evaluate_target evaluate_host suffixes_of permit
bracketed_link_local = refl
