-- ===== src/Api/Policy.antt =====
-- apps/web/src/modules/api/requestPolicy.ts: which targets a request may go to. The module's set of
-- confirmed hosts is passed as a list of keys; a URL has the fields of the browser's URL object.
pub mod Dotted
pub mod Suffixes
pub mod Addresses
pub mod Credentials
pub mod Names
pub mod Confirmation
use Prim.Native.String.{String}
use dev_box.Prelude.{
  ℕ, ◌+◌, Bool, true, false, not, ◌&&◌, ◌||◌, List, [], ◌∷◌, ◌++◌, map, if◌then◌else◌, length, leb,
  ltb, ◌==◌, Option, none, some,
}
use dev_box.Prelude.Int.{ℤ, pos, ltb_ℤ, leb_ℤ, eqb_ℤ}
use dev_box.Text.{Text, codes, text_eq, truthy, starts_with}
use dev_box.Text.Split.{to_lower, split, is_digit, parse_int, ends_with, tail}

pub record RequestPolicy : Type 0 where
  pub allowed_dns_suffixes : Option (List Text)
  pub allow_public : Bool

pub record TargetDecision : Type 0 where
  pub allowed : Bool
  pub reason : Option Text
  pub requires_confirmation : Bool

-- What the policy reads of the browser's URL.
pub record Url : Type 0 where
  pub protocol : Text
  pub username : Text
  pub password : Text
  pub hostname : Text
  pub port : Text

-- confirmedHosts.has(key)
unfoldable pub has_key : List Text → Text → Bool
unfolding text_eq
has_key [] key = false
has_key (k ∷ keys) key = text_eq k key || has_key keys key

unfoldable pub is_host_confirmed : List Text → Text → Bool
unfolding has_key to_lower
is_host_confirmed confirmed host = has_key confirmed (to_lower host)

-- A set holds a key once.
unfoldable pub confirm_host : List Text → Text → List Text
unfolding has_key to_lower
confirm_host confirmed host =
    let key = to_lower host in if has_key confirmed key then confirmed else confirmed ++ key ∷ []

unfoldable pub clear_confirmed_hosts : List Text → List Text
clear_confirmed_hosts confirmed = []

-- ip.split('.').map((p) => parseInt(p, 10))
abbrev pub ip_parts : Text → List (Option ℤ)
ip_parts ip = map parse_int (split b'.' ip)

-- isNaN(p) || p < 0 || p > 255
abbrev pub out_of_range : Option ℤ → Bool
out_of_range none = true
out_of_range (some p) = ltb_ℤ p (pos 0) || ltb_ℤ (pos 255) p

-- a is the first part and b the second one.
abbrev pub is_private : ℤ → ℤ → Bool
is_private a b =
    eqb_ℤ a (pos 127)
    || eqb_ℤ a (pos 10)
    || (eqb_ℤ a (pos 172) && leb_ℤ (pos 16) b && leb_ℤ b (pos 31))
    || (eqb_ℤ a (pos 192) && eqb_ℤ b (pos 168))

abbrev pub is_link_local : ℤ → ℤ → Bool
is_link_local a b = eqb_ℤ a (pos 169) && eqb_ℤ b (pos 254)

-- The test of four parts in range, and of the first two of them.
abbrev pub four_parts : (ℤ → ℤ → Bool) → List (Option ℤ) → Bool
four_parts test (some a ∷ some b ∷ c ∷ d ∷ []) =
    if out_of_range (some a) || out_of_range (some b) || out_of_range c || out_of_range d
    then false
    else test a b
four_parts test _ = false

unfoldable pub is_private_or_loopback_ipv4 : Text → Bool
unfolding split parse_int
is_private_or_loopback_ipv4 ip = four_parts is_private (ip_parts ip)

unfoldable pub is_link_local_ipv4 : Text → Bool
unfolding split parse_int
is_link_local_ipv4 ip = four_parts is_link_local (ip_parts ip)

abbrev pub all_digits : Text → Bool
all_digits [] = true
all_digits (c ∷ s) = is_digit c && all_digits s

-- `\d{1,3}`, as the whole of a text
unfoldable pub digit_group : Text → Bool
digit_group s = leb 1 (length s) && leb (length s) 3 && all_digits s

abbrev pub four_groups : List Text → Bool
four_groups (a ∷ b ∷ c ∷ d ∷ []) = digit_group a && digit_group b && digit_group c && digit_group d
four_groups _ = false

-- The regular expression of four groups of digits with dots between them.
unfoldable pub is_ipv4 : Text → Bool
unfolding split digit_group
is_ipv4 hostname = four_groups (split b'.' hostname)

unfoldable pub is_loopback : Text → Bool
unfolding text_eq starts_with
is_loopback hostname =
    text_eq hostname (codes "localhost")
    || text_eq hostname (codes "127.0.0.1")
    || text_eq hostname (codes "::1")
    || text_eq hostname (codes "[::1]")
    || starts_with hostname (codes "127.")

unfoldable pub is_link_local_host : Text → Bool
unfolding text_eq starts_with is_link_local_ipv4
is_link_local_host hostname =
    is_link_local_ipv4 hostname
    || text_eq hostname (codes "fe80::")
    || starts_with hostname (codes "fe80:")

unfoldable pub default_suffixes : List Text
default_suffixes = codes "local" ∷ codes "internal" ∷ codes "test" ∷ codes "home.arpa" ∷ []

unfoldable pub suffixes_of : Option (List Text) → List Text
unfolding default_suffixes
suffixes_of none = default_suffixes
suffixes_of (some suffixes) = suffixes

-- suffix.startsWith('.') ? suffix.slice(1) : suffix
unfoldable pub bare : Text → Text
unfolding starts_with
bare suffix = if starts_with suffix (codes ".") then tail suffix else suffix

-- The callback of `some`.
unfoldable pub suffix_matches : Text → Text → Bool
unfolding text_eq ends_with bare
suffix_matches hostname suffix =
    text_eq hostname (bare suffix) || ends_with hostname (b'.' ∷ bare suffix)

unfoldable pub has_approved_suffix : Text → List Text → Bool
unfolding suffix_matches
has_approved_suffix hostname [] = false
has_approved_suffix hostname (suffix ∷ suffixes) =
    suffix_matches hostname suffix || has_approved_suffix hostname suffixes

unfoldable pub host_key : Url → Text
unfolding to_lower text_eq
host_key url =
    to_lower url.hostname
    ++ b':'
      ∷ (if truthy url.port
          then url.port
          else if text_eq url.protocol (codes "https:")
          then codes "443"
          else codes "80")

abbrev pub deny : Text → TargetDecision
deny reason = record { allowed = false; reason = some reason; requires_confirmation = false }

unfoldable pub permit : List Text → Url → TargetDecision
unfolding is_host_confirmed host_key
permit confirmed url = record {
  allowed = true;
  reason = none;
  requires_confirmation = not (is_host_confirmed confirmed (host_key url));
}

-- The checks behind the credentials, the link-local addresses and the loopback names.
unfoldable pub evaluate_host : List Text → Url → RequestPolicy → Text → TargetDecision
unfolding permit is_ipv4 is_private_or_loopback_ipv4 has_approved_suffix suffixes_of
evaluate_host confirmed url policy hostname =
    if is_ipv4 hostname
    then if is_private_or_loopback_ipv4 hostname
      then permit confirmed url
      else deny
          (codes "Public IP destination " ++ hostname ++ codes " is blocked by default policy.")
    else if has_approved_suffix hostname (suffixes_of policy.allowed_dns_suffixes)
    then permit confirmed url
    else if policy.allow_public
    then permit confirmed url
    else deny (
        codes "Public domain "
        ++ hostname
        ++ codes " is blocked by default request security policy. Only local and private addresses "
        ++ codes "are permitted.")

unfoldable pub evaluate_target : List Text → Url → RequestPolicy → TargetDecision
unfolding permit is_link_local_host is_loopback to_lower evaluate_host
evaluate_target confirmed url policy =
    let hostname = to_lower url.hostname in
    if truthy url.username || truthy url.password
    then deny (codes "URL credentials in authority (username/password) are forbidden.")
    else if is_link_local_host hostname
    then deny (codes "Link-local addresses (169.254.x.x / fe80::) are denied.")
    else if is_loopback hostname
    then permit confirmed url
    else evaluate_host confirmed url policy hostname
