-- ===== src/Git/Ancestry/Order.antt =====
-- In a valid repository ancestry is a partial order.
use dev_box.Prelude.{ℕ, ◌≤◌, ◌≡◌, sym, ◌∙◌, ap, arith, All-In, some}
use dev_box.Text.{Text}
use dev_box.Dict.{lookup}
use dev_box.Git.Model.{Commit, commit_id}
use dev_box.Git.Ancestry.Laws.{Ancestor, here, via}
use dev_box.Git.Valid.{Commits, Exists, Older, IsGraph, commit_id_injective}

pub Ancestor-trans :
    (commits : Commits) {a b c : Text}
    → Ancestor commits a b
    → Ancestor commits b c
    → Ancestor commits a c
Ancestor-trans commits r (here e) = rw (← e) r
Ancestor-trans commits r (via p d l i r') = via p d l i (Ancestor-trans commits r r')

-- More commits keep the ancestors.
pub Ancestor-grow :
    (small large : Commits) {a s : Text}
    → ((id : Text) (c : Commit) → lookup id small ≡ some c → lookup id large ≡ some c)
    → Ancestor small a s
    → Ancestor large a s
Ancestor-grow small large keeps (here e) = here e
Ancestor-grow small large keeps (via p c l i r) =
    via p c (keeps _ c l) i (Ancestor-grow small large keeps r)

-- An ancestor has a smaller number, or is the commit itself.
Ancestor-number :
    (commits : Commits) (n : ℕ)
    → IsGraph commits n
    → {a s : Text} → Ancestor commits a s
    → (k : ℕ) → s ≡ commit_id k
    → (j : ℕ) × (a ≡ commit_id j) × (j ≤ k)
Ancestor-number commits n g (here e) k named = (k, e ∙ named, omega arith)
Ancestor-number commits n g (via p c l i r) k named =
    let placed = g _ c l in
    let same = commit_id_injective k placed.number (sym named ∙ placed.named) in
    let (j', named', lt, _) = All-In (Older commits placed.number) p c.parents placed.parents i in
    let (j, e, le) = Ancestor-number commits n g r j' named' in (j, e, omega arith)

-- Two commits that are ancestors of each other are one.
pub Ancestor-antisymm :
    (commits : Commits) (n : ℕ)
    → IsGraph commits n
    → (a s : Text) → Exists commits s
    → Ancestor commits a s
    → Ancestor commits s a
    → a ≡ s
Ancestor-antisymm commits n g a s (c, found) r r' =
    let placed = g s c found in
    let (j, ea, le) = Ancestor-number commits n g r placed.number placed.named in
    let (k, es, le') = Ancestor-number commits n g r' j ea in
    let same = commit_id_injective k placed.number (sym es ∙ placed.named) in
    let equal : j ≡ placed.number = omega arith in ea ∙ ap commit_id equal ∙ sym placed.named
