-- ===== src/Git/Valid.antt =====
-- The invariant of the sandbox's repositories, and that each building step keeps it.
use dev_box.Prelude.{
  ℕ, ◌+◌, ◌<◌, ◌≡◌, ◌≢◌, inl, inr, refl, sym, ap, ◌∙◌, List, [], ◌∷◌, some, true, arith, All,
  All-map, some_inj,
}
use dev_box.Text.{Text, truthy}
use dev_box.Text.Equality.{text_eq-cases}
use dev_box.Text.Decimal.{decimal_injective}
use dev_box.Dict.{lookup, insert, lookup-insert_same, lookup-insert_other}
use dev_box.Git.Model.{Commit, HeadState, branch, detached, RepositoryState, commit_id}

abbrev pub Commits : Type 0
Commits = List (Text × Commit)

-- The id names a commit of the table.
abbrev pub Exists : Commits → Text → Type 0
Exists commits id = (c : Commit) × (lookup id commits ≡ some c)

-- An existing commit whose number is below `k`.
abbrev pub Older : Commits → ℕ → Text → Type 0
Older commits k p = (j : ℕ) × (p ≡ commit_id j) × (j < k) × Exists commits p

-- A commit under its own id, numbered below `next`, whose parents exist and have smaller numbers:
-- the graph has no cycle and no dangling parent.
pub record IsPlaced (commits : Commits) (next : ℕ) (id : Text) (c : Commit) : Type 0 where
  pub number : ℕ
  pub named : id ≡ commit_id number
  pub own_id : c.id ≡ id
  pub below : number < next
  pub parents : All (Older commits number) c.parents

abbrev pub IsGraph : Commits → ℕ → Type 0
IsGraph commits next =
    (id : Text) (c : Commit) → lookup id commits ≡ some c → IsPlaced commits next id c

-- HEAD is on a branch of the table, or on a commit.
abbrev pub HeadExists : HeadState → RepositoryState → Type 0
HeadExists (branch name) s = (id : Text) × (lookup name s.branches ≡ some id)
HeadExists (detached id) s = Exists s.commits id

pub record IsValid (s : RepositoryState) : Type 0 where
  pub graph : IsGraph s.commits s.next_commit_num
  pub tips : (name id : Text) → lookup name s.branches ≡ some id → Exists s.commits id
  pub head : HeadExists s.head s

-- Commit ids are different for different numbers, and never empty.
pub commit_id_injective : (m n : ℕ) → commit_id m ≡ commit_id n → m ≡ n
unfolding commit_id
commit_id_injective m n e = decimal_injective m n (ap tail' e)
  where
    tail' : Text → Text
    tail' [] = []
    tail' (_ ∷ t) = t

pub commit_id-truthy : (n : ℕ) → truthy (commit_id n) ≡ true
unfolding commit_id
commit_id-truthy n = refl

-- The number that the next commit takes is free.
pub fresh :
    (commits : Commits) (n : ℕ)
    → IsGraph commits n
    → (c : Commit) → lookup (commit_id n) commits ≢ some c
fresh commits n g c e =
    let p = g (commit_id n) c e in
    let same = commit_id_injective n p.number p.named in absurd (omega arith)

-- What a table holds, it holds after the insertion of a new key.
pub Exists-insert :
    (commits : Commits) (key id : Text) (c : Commit)
    → Exists commits id
    → Exists (insert key c commits) id
Exists-insert commits key id c (d, e) = elim (text_eq-cases key id) [
  | inl (same, _) ↦ (c, lookup-insert_same key id c commits same)
  | inr (other, _) ↦ (d, lookup-insert_other key id c commits other ∙ e)
]

-- The insertion of a commit under the next number keeps the graph, if its parents exist.
module _ (commits : Commits) (n : ℕ) (g : IsGraph commits n) (c : Commit) (own : c.id ≡ commit_id n)
    (known : All (Exists commits) c.parents) where
  older : (k : ℕ) (p : Text) → Older commits k p → Older (insert (commit_id n) c commits) k p
  older k p (j, e, lt, x) = (j, e, lt, Exists-insert commits (commit_id n) p c x)

  known-Older : (p : Text) → Exists commits p → Older (insert (commit_id n) c commits) n p
  known-Older p (d, e) =
      let q = g p d e in
      (q.number, q.named, q.below, Exists-insert commits (commit_id n) p c (d, e))

  pub insert-IsGraph : IsGraph (insert (commit_id n) c commits) (n + 1)
  insert-IsGraph id d e = elim (text_eq-cases (commit_id n) id) [
    | inl (same, here) ↦
        let is_c : c ≡ d =
          some_inj c d (sym (lookup-insert_same (commit_id n) id c commits same) ∙ e) in
        record {
          number = n;
          named = sym here;
          own_id = rw (← is_c) (own ∙ here);
          below = omega arith;
          parents = rw (← is_c) (All-map known-Older c.parents known);
        }
    | inr (other, _) ↦
        let old = g id d (sym (lookup-insert_other (commit_id n) id c commits other) ∙ e) in
        record {
          number = old.number;
          named = old.named;
          own_id = old.own_id;
          below = omega arith;
          parents = All-map (older old.number) d.parents old.parents;
        }
  ]

  -- Commits are never changed: what the table held under an id, it still holds.
  pub insert_keeps :
      (id : Text) (d : Commit)
      → lookup id commits ≡ some d
      → lookup id (insert (commit_id n) c commits) ≡ some d
  insert_keeps id d e = elim (text_eq-cases (commit_id n) id) [
    | inl (_, here) ↦ absurd (fresh commits n g d (rw here e))
    | inr (other, _) ↦ lookup-insert_other (commit_id n) id c commits other ∙ e
  ]
