-- ===== src/Git/Commands.antt =====
-- `reduceRepository` of apps/web/src/modules/learning/git/reducer.ts, one function for each case.
pub mod Steps
pub mod Grow
pub mod Collect
pub mod Safety
pub mod Merge
pub mod Rebase
pub mod Branches
use dev_box.Prelude.{
  ℕ, zero, suc, ◌+◌, Bool, not, ◌&&◌, ◌||◌, List, [], ◌∷◌, ◌++◌, Option, none, some, if◌then◌else◌,
}
use dev_box.Text.{Text, codes, text_eq, truthy, trim}
use dev_box.Dict.{lookup, insert, has}
use dev_box.Git.Model.{
  Commit, HeadState, branch, detached, RepositoryState, ResetMode, GitCommand, commit, switch,
  merge, rebase, reset, revert, cherry_pick, Outcome, ok, error, stuck, commit_id, branch_tip,
  get_head_commit_id,
}
use dev_box.Git.Ancestry.{is_ancestor}

-- The current branch, or a detached HEAD, is moved to a commit.
unfoldable pub move_to : HeadState → Text → RepositoryState → RepositoryState
unfolding insert
move_to (branch name) id state = record state { branches = insert name id state.branches }
move_to (detached _) id state = record state { head = detached id }

unfoldable pub move_head : Text → RepositoryState → RepositoryState
unfolding move_to
move_head id state = move_to state.head id state

-- A new commit under the next number, and HEAD moved to it.
unfoldable pub add_commit : List Text → Text → RepositoryState → RepositoryState
unfolding insert commit_id move_head
add_commit parents message state =
    let id = commit_id state.next_commit_num in
    move_head id (record state {
      commits = insert id (record { id = id; parents = parents; message = message }) state.commits;
      next_commit_num = state.next_commit_num + 1;
    })

-- command.message || `Commit ${commitId}`
commit_message : Option Text → Text → Text
commit_message none id = codes "Commit " ++ id
commit_message (some message) id = if truthy message then message else codes "Commit " ++ id

unfoldable pub reduce_commit : Option Text → RepositoryState → Outcome
unfolding add_commit commit_message get_head_commit_id
reduce_commit message state = ok (
    add_commit (get_head_commit_id state ∷ [])
      (commit_message message (commit_id state.next_commit_num)) state)

branch_exists : Text → Text
branch_exists name = codes "Branch \"" ++ name ++ codes "\" already exists"

unfoldable pub reduce_branch : Text → RepositoryState → Outcome
unfolding trim branch_tip insert get_head_commit_id branch_exists
reduce_branch name state =
    let name' = trim name in
    if not (truthy name')
    then error (codes "Branch name cannot be empty")
    else elim (branch_tip name' state.branches) [
      | some _ ↦ error (branch_exists name')
      | none ↦
          ok (record state { branches = insert name' (get_head_commit_id state) state.branches })
    ]

unfoldable pub reduce_switch : Text → Bool → RepositoryState → Outcome
unfolding trim branch_tip insert has get_head_commit_id branch_exists
reduce_switch target create state =
    let target' = trim target in
    let found = branch_tip target' state.branches in
    if create
    then elim found [
      | some _ ↦ error (branch_exists target')
      | none ↦ ok (record state {
        branches = insert target' (get_head_commit_id state) state.branches;
        head = branch target';
      })
    ]
    else elim found [
      | some _ ↦ ok (record state { head = branch target' })
      | none ↦
          if has target' state.commits
          then ok (record state { head = detached target' })
          else error (codes "Cannot resolve \"" ++ target' ++ codes "\" to a branch or commit")
    ]

-- state.branches[target] || (state.commits[target] ? target : null), tested by `!targetCommitId`
unfoldable pub resolve : Text → RepositoryState → Option Text
unfolding branch_tip has
resolve target state = elim (branch_tip target state.branches) [
  | some id ↦ some id
  | none ↦ if has target state.commits && truthy target then some target else none
]

unfoldable pub up_to_date : Outcome
up_to_date = error (codes "Already up to date.")

-- The cases of `merge` behind a resolved target.
unfoldable pub merge_commits : Text → Text → RepositoryState → Outcome
unfolding is_ancestor move_head add_commit get_head_commit_id up_to_date
merge_commits target id state =
    let current = get_head_commit_id state in
    if text_eq id current
    then up_to_date
    else if is_ancestor state.commits current id
    then ok (move_head id state)
    else if is_ancestor state.commits id current
    then up_to_date
    else ok (add_commit (current ∷ id ∷ []) (codes "Merge branch '" ++ target ++ codes "'") state)

unfoldable pub reduce_merge : Text → RepositoryState → Outcome
unfolding trim resolve merge_commits
reduce_merge target state =
    let target' = trim target in
    elim (resolve target' state) [
      | none ↦ error (codes "Cannot resolve merge target \"" ++ target' ++ codes "\"")
      | some id ↦ merge_commits target' id state
    ]

-- The `while` loop of `rebase`: the commits to replay, oldest first. `none`: the fuel ran out.
unfoldable pub collect : ℕ → List (Text × Commit) → Text → Text → List Commit → Option (List Commit)
unfolding is_ancestor lookup
collect zero commits target current replay = none
collect (suc fuel) commits target current replay =
    let step : Option (List Commit) = elim (lookup current commits) [
      | none ↦ some replay
      | some c ↦ elim c.parents [
        | [] ↦ some (c ∷ replay)
        | p ∷ _ ↦ collect fuel commits target p (c ∷ replay)
      ]
    ] in
    if not (truthy current) || text_eq current target || is_ancestor commits current target
    then some replay
    else step

-- The loop that replays them on top of `parent`.
pub record Replayed : Type 0 where
  pub commits : List (Text × Commit)
  pub tip : Text
  pub next_num : ℕ

unfoldable pub replay : List Commit → Replayed → Replayed
unfolding insert commit_id
replay [] r = r
replay (old ∷ rest) r =
    let id = commit_id r.next_num in
    replay rest (record {
      commits =
          insert id (record { id = id; parents = r.tip ∷ []; message = old.message }) r.commits;
      tip = id;
      next_num = r.next_num + 1;
    })

unfoldable pub rebase_onto : Text → RepositoryState → List Commit → Outcome
unfolding replay move_head
rebase_onto id state [] = error (codes "Current branch is already up to date with target")
rebase_onto id state (c ∷ cs) =
    let r =
      replay (c ∷ cs)
        (record { commits = state.commits; tip = id; next_num = state.next_commit_num }) in
    ok (move_head r.tip (record state { commits = r.commits; next_commit_num = r.next_num }))

-- Each round follows a first parent, which has a smaller number: `next_commit_num` is enough fuel.
unfoldable pub reduce_rebase : Text → RepositoryState → Outcome
unfolding trim resolve collect rebase_onto get_head_commit_id
reduce_rebase target state =
    let target' = trim target in
    elim (resolve target' state) [
      | none ↦ error (codes "Cannot resolve rebase target \"" ++ target' ++ codes "\"")
      | some id ↦
          elim (collect state.next_commit_num state.commits id (get_head_commit_id state) []) [
            | none ↦ stuck
            | some todo ↦ rebase_onto id state todo
          ]
    ]

-- state.commits[target] ? target : state.branches[target]
unfoldable pub resolve_reset : Text → RepositoryState → Option Text
unfolding has branch_tip
resolve_reset target state =
    if has target state.commits
    then (if truthy target then some target else none)
    else branch_tip target state.branches

-- The mode is not read.
unfoldable pub reduce_reset : ResetMode → Text → RepositoryState → Outcome
unfolding trim resolve_reset move_head
reduce_reset mode target state =
    let target' = trim target in
    elim (resolve_reset target' state) [
      | none ↦ error (codes "Cannot resolve reset target \"" ++ target' ++ codes "\"")
      | some id ↦ ok (move_head id state)
    ]

unfoldable pub reduce_revert : Text → RepositoryState → Outcome
unfolding trim lookup add_commit get_head_commit_id
reduce_revert target state =
    let target' = trim target in
    elim (lookup target' state.commits) [
      | none ↦ error (codes "Cannot resolve revert commit \"" ++ target' ++ codes "\"")
      | some c ↦ ok (
          add_commit (get_head_commit_id state ∷ []) (codes "Revert \"" ++ c.message ++ codes "\"")
            state)
    ]

unfoldable pub reduce_cherry_pick : Text → RepositoryState → Outcome
unfolding trim lookup add_commit get_head_commit_id
reduce_cherry_pick target state =
    let target' = trim target in
    elim (lookup target' state.commits) [
      | none ↦ error (codes "Cannot find commit \"" ++ target' ++ codes "\"")
      | some c ↦ ok (add_commit (get_head_commit_id state ∷ []) c.message state)
    ]

-- The `switch` over the commands.
unfoldable pub reduce_repository : RepositoryState → GitCommand → Outcome
unfolding reduce_commit reduce_branch reduce_switch reduce_merge reduce_rebase reduce_reset
    reduce_revert reduce_cherry_pick
reduce_repository state (commit message) = reduce_commit message state
reduce_repository state (GitCommand.branch name) = reduce_branch name state
reduce_repository state (switch target create) = reduce_switch target create state
reduce_repository state (merge target) = reduce_merge target state
reduce_repository state (rebase target) = reduce_rebase target state
reduce_repository state (reset mode target) = reduce_reset mode target state
reduce_repository state (revert id) = reduce_revert id state
reduce_repository state (cherry_pick id) = reduce_cherry_pick id state
