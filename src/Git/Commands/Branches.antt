-- ===== src/Git/Commands/Branches.antt =====
-- No command moves a branch other than the one that HEAD is on.
use dev_box.Prelude.{
  ◌≡◌, ◌≢◌, refl, ◌∙◌, ap, List, [], ◌∷◌, inl, inr, some, none, true, false, Bool, Bool-cases,
  Option-cases,
}
use dev_box.Text.{Text, text_eq, truthy, trim}
use dev_box.Text.Equality.{text_eq-cases}
use dev_box.Dict.{lookup, insert, has, lookup-insert_other}
use dev_box.Git.Model.{
  Commit, HeadState, branch, detached, RepositoryState, GitCommand, commit, switch, merge, rebase,
  reset, ResetMode, revert, cherry_pick, Outcome, ok, error, stuck, get_head_commit_id, branch_tip,
}
use dev_box.Git.Ancestry.{is_ancestor}
use dev_box.Git.Commands.{
  move_to, move_head, add_commit, reduce_commit, reduce_branch, reduce_switch, resolve,
  merge_commits, reduce_merge, collect, rebase_onto, reduce_rebase, resolve_reset, reduce_reset,
  reduce_revert, reduce_cherry_pick, reduce_repository,
}
use dev_box.Git.Valid.{IsValid}
use dev_box.Git.Commands.Steps.{Exists-truthy, branch_tip-lookup-some}

-- The branches that HEAD is not on stand where they stood.
abbrev pub Spares : RepositoryState → Outcome → Type 0
Spares s (ok t) =
    (name id : Text)
    → s.head ≢ branch name
    → lookup name s.branches ≡ some id
    → lookup name t.branches ≡ some id
Spares s (error message) = Unit
Spares s stuck = Unit

move_to-Spares :
    (s t : RepositoryState) (target : Text)
    → t.branches ≡ s.branches
    → (h : HeadState) → s.head ≡ h
    → Spares s (ok (move_to h target t))
unfolding move_to
move_to-Spares s t target same (branch b) at name id other e = elim (text_eq-cases b name) [
  | inl (_, here) ↦ absurd (other (at ∙ ap branch here))
  | inr (differs, _) ↦
      lookup-insert_other b name target t.branches differs ∙ ap (lookup name) same ∙ e
]
move_to-Spares s t target same (detached _) at name id other e = ap (lookup name) same ∙ e

moves-Spares :
    (s t : RepositoryState) (target : Text)
    → t.branches ≡ s.branches
    → s.head ≡ t.head
    → Spares s (ok (move_head target t))
unfolding move_head
moves-Spares s t target same at = move_to-Spares s t target same t.head at

adds-Spares :
    (s : RepositoryState) (parents : List Text) (message : Text)
    → Spares s (ok (add_commit parents message s))
unfolding add_commit
adds-Spares s parents message = moves-Spares s _ _ refl refl

module _ (s : RepositoryState) (v : IsValid s) where
  -- A name that is free for a new branch is not the name of an old one.
  free_name :
      (new name id target : Text)
      → branch_tip new s.branches ≡ none
      → lookup name s.branches ≡ some id
      → lookup name (insert new target s.branches) ≡ some id
  free_name new name id target free e = elim (text_eq-cases new name) [
    | inl (_, same) ↦
        let t = Exists-truthy s v id (v.tips name id e) in
        let e' : branch_tip new s.branches ≡ some id =
          rw same (branch_tip-lookup-some name s.branches id e t) in
        cc (e', free)
    | inr (differs, _) ↦ lookup-insert_other new name target s.branches differs ∙ e
  ]

  reduce_branch-Spares : (name : Text) → Spares s (reduce_branch name s)
  unfolding reduce_branch
  reduce_branch-Spares name = elim (Bool-cases (truthy (trim name))) [
    | inl filled ↦ elim (Option-cases (branch_tip (trim name) s.branches)) [
      | inl free ↦
          rw (reduce_branch, filled, free)
            (λ other id _ e. free_name (trim name) other id (get_head_commit_id s) free e)
      | inr (id, taken) ↦ rw (reduce_branch, filled, taken) tt
    ]
    | inr blank ↦ rw (reduce_branch, blank) tt
  ]

  reduce_switch-Spares : (target : Text) (create : Bool) → Spares s (reduce_switch target create s)
  unfolding reduce_switch
  reduce_switch-Spares target true = elim (Option-cases (branch_tip (trim target) s.branches)) [
    | inl free ↦
        rw (reduce_switch, free)
          (λ other id _ e. free_name (trim target) other id (get_head_commit_id s) free e)
    | inr (id, taken) ↦ rw (reduce_switch, taken) tt
  ]
  reduce_switch-Spares target false = elim (Option-cases (branch_tip (trim target) s.branches)) [
    | inl free ↦ elim (Bool-cases (has (trim target) s.commits)) [
      | inl known ↦ rw (reduce_switch, free, known) (λ other id _ e. e)
      | inr unknown ↦ rw (reduce_switch, free, unknown) tt
    ]
    | inr (id, taken) ↦ rw (reduce_switch, taken) (λ other id _ e. e)
  ]

merge_commits-Spares :
    (s : RepositoryState) (target id : Text) → Spares s (merge_commits target id s)
unfolding merge_commits
merge_commits-Spares s target id = elim (Bool-cases (text_eq id (get_head_commit_id s))) [
  | inl same ↦ rw (merge_commits, same) tt
  | inr other ↦ elim (Bool-cases (is_ancestor s.commits (get_head_commit_id s) id)) [
    | inl ahead ↦ rw (merge_commits, other, ahead) (moves-Spares s s id refl refl)
    | inr apart ↦ elim (Bool-cases (is_ancestor s.commits id (get_head_commit_id s))) [
      | inl behind ↦ rw (merge_commits, other, apart, behind) tt
      | inr split ↦
          rw (merge_commits, other, apart, split) (adds-Spares s (get_head_commit_id s ∷ id ∷ []) _)
    ]
  ]
]

reduce_merge-Spares : (s : RepositoryState) (target : Text) → Spares s (reduce_merge target s)
unfolding reduce_merge
reduce_merge-Spares s target = elim (Option-cases (resolve (trim target) s)) [
  | inl missing ↦ rw (reduce_merge, missing) tt
  | inr (id, found) ↦ rw (reduce_merge, found) (merge_commits-Spares s (trim target) id)
]

rebase_onto-Spares :
    (s : RepositoryState) (id : Text) (todo : List Commit) → Spares s (rebase_onto id s todo)
unfolding rebase_onto
rebase_onto-Spares s id [] = tt
rebase_onto-Spares s id (c ∷ cs) = moves-Spares s _ _ refl refl

reduce_rebase-Spares : (s : RepositoryState) (target : Text) → Spares s (reduce_rebase target s)
unfolding reduce_rebase
reduce_rebase-Spares s target = elim (Option-cases (resolve (trim target) s)) [
  | inl missing ↦ rw (reduce_rebase, missing) tt
  | inr (id, found) ↦
      elim (Option-cases (collect s.next_commit_num s.commits id (get_head_commit_id s) [])) [
        | inl spent ↦ rw (reduce_rebase, found, spent) tt
        | inr (todo, run) ↦ rw (reduce_rebase, found, run) (rebase_onto-Spares s id todo)
      ]
]

reduce_reset-Spares :
    (s : RepositoryState) (target : Text)
    → (mode : ResetMode) → Spares s (reduce_reset mode target s)
unfolding reduce_reset
reduce_reset-Spares s target mode = elim (Option-cases (resolve_reset (trim target) s)) [
  | inl missing ↦ rw (reduce_reset, missing) tt
  | inr (id, found) ↦ rw (reduce_reset, found) (moves-Spares s s id refl refl)
]

reduce_revert-Spares : (s : RepositoryState) (id : Text) → Spares s (reduce_revert id s)
unfolding reduce_revert
reduce_revert-Spares s id = elim (Option-cases (lookup (trim id) s.commits)) [
  | inl missing ↦ rw (reduce_revert, missing) tt
  | inr (c, found) ↦ rw (reduce_revert, found) (adds-Spares s (get_head_commit_id s ∷ []) _)
]

reduce_cherry_pick-Spares : (s : RepositoryState) (id : Text) → Spares s (reduce_cherry_pick id s)
unfolding reduce_cherry_pick
reduce_cherry_pick-Spares s id = elim (Option-cases (lookup (trim id) s.commits)) [
  | inl missing ↦ rw (reduce_cherry_pick, missing) tt
  | inr (c, found) ↦
      rw (reduce_cherry_pick, found) (adds-Spares s (get_head_commit_id s ∷ []) c.message)
]

-- In a valid repository a command that succeeds leaves every branch that HEAD is not on at the
-- commit where it was.
pub reduce_repository-Spares :
    (s : RepositoryState) (command : GitCommand)
    → IsValid s
    → Spares s (reduce_repository s command)
unfolding reduce_repository
reduce_repository-Spares s (commit message) v =
    unfold reduce_commit in adds-Spares s (get_head_commit_id s ∷ []) _
reduce_repository-Spares s (GitCommand.branch name) v = reduce_branch-Spares s v name
reduce_repository-Spares s (switch target create) v = reduce_switch-Spares s v target create
reduce_repository-Spares s (merge target) v = reduce_merge-Spares s target
reduce_repository-Spares s (rebase target) v = reduce_rebase-Spares s target
reduce_repository-Spares s (reset mode target) v = reduce_reset-Spares s target mode
reduce_repository-Spares s (revert id) v = reduce_revert-Spares s id
reduce_repository-Spares s (cherry_pick id) v = reduce_cherry_pick-Spares s id
