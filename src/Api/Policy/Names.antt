-- ===== src/Api/Policy/Names.antt =====
-- Which host names the request policy lets through by its suffixes.
use dev_box.Prelude.{ℕ, ◌≤◌, ◌≢◌, Bool, ◌∷◌, ◌≡◌, ◌||◌, In}
use dev_box.Text.{Text, codes, text_eq, starts_with}

-- A lower-case name that starts with a letter, has no colon and is not `localhost`.
pub record IsName (hostname : Text) : Type 0 where
  pub first : ℕ
  pub others : Text
  pub spelled : hostname ≡ first ∷ others
  pub letter : (b'a' ≤ first) × (first ≤ b'z')
  pub no_colon : ¬ In b':' hostname
  pub remote : hostname ≢ codes "localhost"

abbrev rest_of_loopback : Text → Bool
rest_of_loopback s =
    text_eq s (codes "127.0.0.1")
    || text_eq s (codes "::1")
    || text_eq s (codes "[::1]")
    || starts_with s (codes "127.")
