-- ===== src/Git/Commands/Steps.antt =====
-- The building steps of the commands keep a repository valid, and never change a commit.
use dev_box.Prelude.{
  ◌≡◌, inl, inr, refl, sym, ◌∙◌, List, some, true, ◌&&◌, arith, some_inj, Bool-cases, Option-cases,
}
use dev_box.Text.{Text, truthy}
use dev_box.Text.Equality.{text_eq-cases}
use dev_box.Dict.{lookup, insert, has, lookup-insert_same, lookup-insert_other, lookup-insert_self}
use dev_box.Git.Model.{
  Commit, HeadState, branch, detached, RepositoryState, branch_tip, head_id_of, get_head_commit_id,
}
use dev_box.Git.Commands.{move_to, move_head, resolve, resolve_reset}
use dev_box.Git.Valid.{Exists, HeadExists, IsValid, commit_id-truthy}

-- The commits of `s` are commits of `t`, unchanged.
abbrev pub Keeps : RepositoryState → RepositoryState → Type 0
Keeps s t = (id : Text) (c : Commit) → lookup id s.commits ≡ some c → lookup id t.commits ≡ some c

pub branch_tip-lookup :
    (name : Text) (branches : List (Text × Text)) (id : Text)
    → branch_tip name branches ≡ some id
    → lookup name branches ≡ some id
unfolding branch_tip
branch_tip-lookup name branches id e = ground arith

pub branch_tip-Exists :
    (s : RepositoryState)
    → IsValid s
    → (name id : Text) → branch_tip name s.branches ≡ some id
    → Exists s.commits id
branch_tip-Exists s v name id e = v.tips name id (branch_tip-lookup name s.branches id e)

pub has-Exists : (s : RepositoryState) (id : Text) → has id s.commits ≡ true → Exists s.commits id
unfolding has
has-Exists s id h = elim (Option-cases (lookup id s.commits)) [
  | inl e ↦ cc (rw (has, e) at h)
  | inr e ↦ e
]

pub resolve-Exists :
    (s : RepositoryState)
    → IsValid s
    → (target id : Text) → resolve target s ≡ some id
    → Exists s.commits id
unfolding resolve has
resolve-Exists s v target id e = elim (Option-cases (branch_tip target s.branches)) [
  | inl missing ↦ elim (Bool-cases (has target s.commits && truthy target)) [
    | inl known ↦
        let same : target ≡ id = ground arith in rw (← same) (has-Exists s target (ground arith))
    | inr unknown ↦ absurd (ground arith)
  ]
  | inr (b, found) ↦
      let same : b ≡ id = ground arith in rw (← same) (branch_tip-Exists s v target b found)
]

pub resolve_reset-Exists :
    (s : RepositoryState)
    → IsValid s
    → (target id : Text) → resolve_reset target s ≡ some id
    → Exists s.commits id
unfolding resolve_reset
resolve_reset-Exists s v target id e = elim (Bool-cases (has target s.commits)) [
  | inl known ↦ let same : target ≡ id = ground arith in rw (← same) (has-Exists s target known)
  | inr unknown ↦ branch_tip-Exists s v target id (ground arith)
]

pub Exists-truthy :
    (s : RepositoryState) → IsValid s → (id : Text) → Exists s.commits id → truthy id ≡ true
Exists-truthy s v id (c, e) = let p = v.graph id c e in rw p.named (commit_id-truthy p.number)

pub branch_tip-lookup-some :
    (name : Text) (branches : List (Text × Text)) (id : Text)
    → lookup name branches ≡ some id
    → truthy id ≡ true
    → branch_tip name branches ≡ some id
unfolding branch_tip
branch_tip-lookup-some name branches id e t = rw (branch_tip, e, t) refl

-- The branch of HEAD has a tip, and HEAD stands on it.
head_id_of-branch :
    (name : Text) (branches : List (Text × Text)) (id : Text)
    → lookup name branches ≡ some id
    → truthy id ≡ true
    → head_id_of (branch name) branches ≡ id
unfolding head_id_of
head_id_of-branch name branches id e t =
    rw (head_id_of, branch_tip-lookup-some name branches id e t) refl

head_id_of-Exists :
    (s : RepositoryState)
    → IsValid s
    → (h : HeadState) → HeadExists h s
    → Exists s.commits (head_id_of h s.branches)
head_id_of-Exists s v (branch name) (id, e) =
    let x = v.tips name id e in
    rw (head_id_of-branch name s.branches id e (Exists-truthy s v id x)) x
head_id_of-Exists s v (detached id) x = unfold head_id_of in x

-- The commit that HEAD stands on exists.
pub head-Exists : (s : RepositoryState) → IsValid s → Exists s.commits (get_head_commit_id s)
unfolding get_head_commit_id
head-Exists s v = head_id_of-Exists s v s.head v.head

-- A branch set to an existing commit.
pub set_branch-tips :
    (s : RepositoryState)
    → IsValid s
    → (name id : Text) → Exists s.commits id
    → (other tip : Text) → lookup other (insert name id s.branches) ≡ some tip
    → Exists s.commits tip
set_branch-tips s v name id x other tip e = elim (text_eq-cases name other) [
  | inl (same, _) ↦
      let e' = some_inj id tip (sym (lookup-insert_same name other id s.branches same) ∙ e) in
      rw (← e') x
  | inr (differs, _) ↦
      v.tips other tip (sym (lookup-insert_other name other id s.branches differs) ∙ e)
]

HeadExists-set_branch :
    (s : RepositoryState) (name id : Text) (h : HeadState)
    → HeadExists h s
    → HeadExists h (record s { branches = insert name id s.branches })
HeadExists-set_branch s name id (branch b) (tip, e) = elim (text_eq-cases name b) [
  | inl (same, _) ↦ (id, lookup-insert_same name b id s.branches same)
  | inr (differs, _) ↦ (tip, lookup-insert_other name b id s.branches differs ∙ e)
]
HeadExists-set_branch s name id (detached c) x = x

pub set_branch-IsValid :
    (s : RepositoryState)
    → IsValid s
    → (name id : Text) → Exists s.commits id
    → IsValid (record s { branches = insert name id s.branches })
set_branch-IsValid s v name id x = record {
  graph = v.graph;
  tips = set_branch-tips s v name id x;
  head = HeadExists-set_branch s name id s.head v.head;
}

-- HEAD put where there is a branch or a commit.
pub set_head-IsValid :
    (s : RepositoryState)
    → IsValid s
    → (h : HeadState) → HeadExists h s
    → IsValid (record s { head = h })
set_head-IsValid s v (branch name) x = record { graph = v.graph; tips = v.tips; head = x }
set_head-IsValid s v (detached id) x = record { graph = v.graph; tips = v.tips; head = x }

move_to-IsValid :
    (s : RepositoryState)
    → IsValid s
    → (id : Text) → Exists s.commits id
    → (h : HeadState) → IsValid (move_to h id s)
unfolding move_to
move_to-IsValid s v id x (branch name) = set_branch-IsValid s v name id x
move_to-IsValid s v id x (detached _) = set_head-IsValid s v (detached id) x

-- HEAD, or its branch, moved to an existing commit.
pub move_head-IsValid :
    (s : RepositoryState) → IsValid s → (id : Text) → Exists s.commits id → IsValid (move_head id s)
unfolding move_head
move_head-IsValid s v id x = move_to-IsValid s v id x s.head

move_to-commits :
    (h : HeadState) (id : Text) (s : RepositoryState) → (move_to h id s).commits ≡ s.commits
unfolding move_to
move_to-commits (branch name) id s = refl
move_to-commits (detached _) id s = refl

pub move_head-commits : (id : Text) (s : RepositoryState) → (move_head id s).commits ≡ s.commits
unfolding move_head
move_head-commits id s = move_to-commits s.head id s

head_id_of-move_to :
    (s : RepositoryState) (id : Text) (h : HeadState)
    → s.head ≡ h
    → truthy id ≡ true
    → head_id_of (move_to h id s).head (move_to h id s).branches ≡ id
unfolding move_to
head_id_of-move_to s id (branch name) e t = rw e (
    head_id_of-branch name (insert name id s.branches) id (lookup-insert_self name id s.branches) t)
head_id_of-move_to s id (detached _) e t = unfold head_id_of in refl

-- After the move HEAD stands on that commit.
pub get_head-move_head :
    (s : RepositoryState) (id : Text) → truthy id ≡ true → get_head_commit_id (move_head id s) ≡ id
unfolding get_head_commit_id move_head
get_head-move_head s id t = head_id_of-move_to s id s.head refl t
