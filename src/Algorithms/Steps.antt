-- ===== src/Algorithms/Steps.antt =====
-- apps/web/src/modules/learning/algorithms/contracts.ts, and what the generators share. A generator
-- is the list of the steps that it yields; an explanation is its template literal in pieces.
use Prim.Native.String.{String}
use dev_box.Prelude.{ℕ, List, [], ◌∷◌, ltb, if◌then◌else◌, length, ◌≤◌, ◌≡◌, arith}
use dev_box.Prelude.Int.{ℤ}

pub data Piece : Type 0 where
  lit : String → Piece
  num : ℤ → Piece
  nat : ℕ → Piece
  nums : List ℤ → Piece
  ratio : (above below : ℕ) → Piece

-- What a step highlights: a position or a value.
pub data Mark : Type 0 where
  index : ℕ → Mark
  value : ℤ → Mark

pub record Step (S : Type 0) : Type 0 where
  pub state : S
  pub explanation : List Piece
  pub highlighted : List Mark

-- A run, or the `AlgorithmInputError` that was thrown.
pub data Run {ℓ} (A : Type ℓ) : Type ℓ where
  done : A → Run A
  input_error : List Piece → Run A

abbrev pub max_elements : ℕ
max_elements = 128

-- assertSize: the generator body runs only for an input of at most MAX_ELEMENTS values.
unfoldable pub assert_size {ℓ} : {A : Type ℓ} → List ℤ → String → A → Run A
assert_size values label body =
    if ltb max_elements (length values)
    then input_error (lit label ∷ lit " is limited to " ∷ nat max_elements ∷ lit " elements." ∷ [])
    else done body

pub assert_size-done {ℓ} :
    {A : Type ℓ} (values : List ℤ) (label : String) (body : A)
    → length values ≤ max_elements
    → assert_size values label body ≡ done body
unfolding assert_size
assert_size-done values label body fits = ground arith
