-- ===== src/Git/Commands/Safety.antt =====
-- Every command ends, keeps a repository valid, and never changes or removes a commit.
use dev_box.Prelude.{
  inl, inr, List, [], ◌∷◌, Option, Bool, true, false, All, Bool-cases, Option-cases,
}
use mathlib.Core.List.{reverse_aux}
use dev_box.Text.{Text, text_eq, truthy, trim}
use dev_box.Dict.{lookup, insert, has, lookup-insert_self}
use dev_box.Git.Model.{
  Commit, branch, detached, RepositoryState, ResetMode, GitCommand, commit, switch, merge, rebase,
  reset, revert, cherry_pick, Outcome, ok, error, stuck, branch_tip, get_head_commit_id,
}
use dev_box.Git.Ancestry.{is_ancestor}
use dev_box.Git.Commands.{
  move_head, add_commit, reduce_commit, reduce_branch, reduce_switch, resolve, merge_commits,
  reduce_merge, Replayed, replay, rebase_onto, reduce_rebase, resolve_reset, reduce_reset,
  reduce_revert, reduce_cherry_pick, reduce_repository,
}
use dev_box.Git.Valid.{Exists, IsValid}
use dev_box.Git.Commands.Steps.{
  Keeps, resolve-Exists, resolve_reset-Exists, head-Exists, set_branch-IsValid, set_head-IsValid,
  move_head-IsValid, move_head-commits, has-Exists, branch_tip-lookup,
}
use dev_box.Git.Commands.Grow.{add_commit-Adds, grow-IsValid, Replays, replay-Replays, stop}
use dev_box.Git.Commands.Collect.{collect-Walk}

-- A result is a valid repository that still holds every commit, or an error message.
abbrev pub Safe : RepositoryState → Outcome → Type 0
Safe s (ok t) = IsValid t × Keeps s t
Safe s (error message) = Unit
Safe s stuck = ⊥

module _ (s : RepositoryState) (v : IsValid s) where
  adds-Safe :
      (parents : List Text) (message : Text)
      → All (Exists s.commits) parents
      → Safe s (ok (add_commit parents message s))
  adds-Safe parents message known =
      let a = add_commit-Adds s v parents message known in (a.valid, a.keeps)

  moves-Safe : (id : Text) → Exists s.commits id → Safe s (ok (move_head id s))
  moves-Safe id x = (move_head-IsValid s v id x, λ i c e. rw (move_head-commits id s) e)

  reduce_commit-Safe : (message : Option Text) → Safe s (reduce_commit message s)
  unfolding reduce_commit
  reduce_commit-Safe message = adds-Safe (get_head_commit_id s ∷ []) _ (head-Exists s v, tt)

  reduce_branch-Safe : (name : Text) → Safe s (reduce_branch name s)
  unfolding reduce_branch
  reduce_branch-Safe name = elim (Bool-cases (truthy (trim name))) [
    | inl filled ↦ elim (Option-cases (branch_tip (trim name) s.branches)) [
      | inl free ↦
          rw (reduce_branch, filled, free)
            (
              set_branch-IsValid s v (trim name) (get_head_commit_id s) (head-Exists s v),
              λ i c e. e,
            )
      | inr (id, taken) ↦ rw (reduce_branch, filled, taken) tt
    ]
    | inr blank ↦ rw (reduce_branch, blank) tt
  ]

  reduce_switch-Safe : (target : Text) (create : Bool) → Safe s (reduce_switch target create s)
  unfolding reduce_switch
  reduce_switch-Safe target true = elim (Option-cases (branch_tip (trim target) s.branches)) [
    | inl free ↦
        let x = head-Exists s v in
        let id = get_head_commit_id s in
        let t : RepositoryState = record s { branches = insert (trim target) id s.branches } in
        rw (reduce_switch, free)
          (
            set_head-IsValid t (set_branch-IsValid s v (trim target) id x) (branch (trim target))
                (id, lookup-insert_self (trim target) id s.branches),
            λ i c e. e,
          )
    | inr (id, taken) ↦ rw (reduce_switch, taken) tt
  ]
  reduce_switch-Safe target false = elim (Option-cases (branch_tip (trim target) s.branches)) [
    | inl free ↦ elim (Bool-cases (has (trim target) s.commits)) [
      | inl known ↦
          rw (reduce_switch, free, known)
            (
              set_head-IsValid s v (detached (trim target)) (has-Exists s (trim target) known),
              λ i c e. e,
            )
      | inr unknown ↦ rw (reduce_switch, free, unknown) tt
    ]
    | inr (id, taken) ↦
        rw (reduce_switch, taken)
          (
            set_head-IsValid s v (branch (trim target))
                (id, branch_tip-lookup (trim target) s.branches id taken),
            λ i c e. e,
          )
  ]

  merge_commits-Safe : (target id : Text) → Exists s.commits id → Safe s (merge_commits target id s)
  unfolding merge_commits
  merge_commits-Safe target id x = elim (Bool-cases (text_eq id (get_head_commit_id s))) [
    | inl same ↦ rw (merge_commits, same) tt
    | inr other ↦ elim (Bool-cases (is_ancestor s.commits (get_head_commit_id s) id)) [
      | inl ahead ↦ rw (merge_commits, other, ahead) (moves-Safe id x)
      | inr apart ↦ elim (Bool-cases (is_ancestor s.commits id (get_head_commit_id s))) [
        | inl behind ↦ rw (merge_commits, other, apart, behind) tt
        | inr split ↦
            rw (merge_commits, other, apart, split)
              (adds-Safe (get_head_commit_id s ∷ id ∷ []) _ (head-Exists s v, (x, tt)))
      ]
    ]
  ]

  reduce_merge-Safe : (target : Text) → Safe s (reduce_merge target s)
  unfolding reduce_merge
  reduce_merge-Safe target = elim (Option-cases (resolve (trim target) s)) [
    | inl missing ↦ rw (reduce_merge, missing) tt
    | inr (id, found) ↦
        rw (reduce_merge, found)
          (merge_commits-Safe (trim target) id (resolve-Exists s v (trim target) id found))
  ]

  rebase_onto-Safe :
      (id : Text) → Exists s.commits id → (todo : List Commit) → Safe s (rebase_onto id s todo)
  unfolding rebase_onto
  rebase_onto-Safe id x [] = tt
  rebase_onto-Safe id x (c ∷ cs) =
      let from : Replayed = record {
        commits = s.commits;
        tip = id;
        next_num = s.next_commit_num;
      } in
      let start : Replays s.commits id [] from = record {
        graph = v.graph;
        tip = x;
        keeps = λ i d e. e;
        linear = stop;
      } in
      let done = replay-Replays s.commits id (c ∷ cs) [] from start in
      let r = replay (c ∷ cs) from in
      let t : RepositoryState = record s { commits = r.commits; next_commit_num = r.next_num } in
      (
        move_head-IsValid t (grow-IsValid s v r.commits r.next_num done.graph done.keeps) r.tip
            done.tip,
        λ i d e. rw (move_head-commits r.tip t) (done.keeps i d e),
      )

  reduce_rebase-Safe : (target : Text) → Safe s (reduce_rebase target s)
  unfolding reduce_rebase
  reduce_rebase-Safe target = elim (Option-cases (resolve (trim target) s)) [
    | inl missing ↦ rw (reduce_rebase, missing) tt
    | inr (id, found) ↦
        let x = head-Exists s v in
        let placed = v.graph (get_head_commit_id s) x.0 x.1 in
        let (walk, _, run) =
          collect-Walk s.commits s.next_commit_num v.graph id s.next_commit_num placed.number
            (get_head_commit_id s) [] placed.named placed.below x in
        rw (reduce_rebase, found, run)
          (rebase_onto-Safe id (resolve-Exists s v (trim target) id found) (reverse_aux walk []))
  ]

  reduce_reset-Safe : (mode : ResetMode) (target : Text) → Safe s (reduce_reset mode target s)
  unfolding reduce_reset
  reduce_reset-Safe mode target = elim (Option-cases (resolve_reset (trim target) s)) [
    | inl missing ↦ rw (reduce_reset, missing) tt
    | inr (id, found) ↦
        rw (reduce_reset, found) (moves-Safe id (resolve_reset-Exists s v (trim target) id found))
  ]

  reduce_revert-Safe : (id : Text) → Safe s (reduce_revert id s)
  unfolding reduce_revert
  reduce_revert-Safe id = elim (Option-cases (lookup (trim id) s.commits)) [
    | inl missing ↦ rw (reduce_revert, missing) tt
    | inr (c, found) ↦
        rw (reduce_revert, found) (adds-Safe (get_head_commit_id s ∷ []) _ (head-Exists s v, tt))
  ]

  reduce_cherry_pick-Safe : (id : Text) → Safe s (reduce_cherry_pick id s)
  unfolding reduce_cherry_pick
  reduce_cherry_pick-Safe id = elim (Option-cases (lookup (trim id) s.commits)) [
    | inl missing ↦ rw (reduce_cherry_pick, missing) tt
    | inr (c, found) ↦
        rw (reduce_cherry_pick, found)
          (adds-Safe (get_head_commit_id s ∷ []) c.message (head-Exists s v, tt))
  ]

-- On a valid repository every command ends, in an error message or in a valid repository that
-- holds all the earlier commits unchanged.
pub reduce_repository-Safe :
    (s : RepositoryState) (command : GitCommand) → IsValid s → Safe s (reduce_repository s command)
unfolding reduce_repository
reduce_repository-Safe s (commit message) v = reduce_commit-Safe s v message
reduce_repository-Safe s (GitCommand.branch name) v = reduce_branch-Safe s v name
reduce_repository-Safe s (switch target create) v = reduce_switch-Safe s v target create
reduce_repository-Safe s (merge target) v = reduce_merge-Safe s v target
reduce_repository-Safe s (rebase target) v = reduce_rebase-Safe s v target
reduce_repository-Safe s (reset mode target) v = reduce_reset-Safe s v mode target
reduce_repository-Safe s (revert id) v = reduce_revert-Safe s v id
reduce_repository-Safe s (cherry_pick id) v = reduce_cherry_pick-Safe s v id
