-- ===== src/Git/Model.antt =====
-- apps/web/src/modules/learning/git/model.ts: the repository and the commands on it.
use dev_box.Prelude.{ℕ, Bool, List, [], ◌∷◌, ◌++◌, Option, none, some, if◌then◌else◌}
use dev_box.Text.{Text, codes, truthy}
use dev_box.Text.Decimal.{decimal}
use dev_box.Dict.{lookup}

pub record Commit : Type 0 where
  pub id : Text
  pub parents : List Text
  pub message : Text

pub data HeadState : Type 0 where
  branch : (branch_name : Text) → HeadState
  detached : (commit_id : Text) → HeadState

pub record RepositoryState : Type 0 where
  pub commits : List (Text × Commit)
  pub branches : List (Text × Text)
  pub head : HeadState
  pub next_commit_num : ℕ

pub data ResetMode : Type 0 where
  soft mixed hard : ResetMode

pub data GitCommand : Type 0 where
  commit : (message : Option Text) → GitCommand
  branch : (name : Text) → GitCommand
  switch : (target : Text) (create_branch : Bool) → GitCommand
  merge : (target : Text) → GitCommand
  rebase : (target : Text) → GitCommand
  reset : (mode : ResetMode) (target : Text) → GitCommand
  revert : (commit_id : Text) → GitCommand
  cherry_pick : (commit_id : Text) → GitCommand

-- `RepositoryState | CommandError`. `stuck` is a loop of the model that ran out of fuel.
pub data Outcome : Type 0 where
  ok : RepositoryState → Outcome
  error : (message : Text) → Outcome
  stuck : Outcome

-- `c${n}`
unfoldable pub commit_id : ℕ → Text
unfolding decimal
commit_id n = codes "c" ++ decimal n

abbrev pub create_initial_repository : RepositoryState
create_initial_repository = record {
  commits =
      (codes "c1", record { id = codes "c1"; parents = []; message = codes "Initial commit" }) ∷ [];
  branches = (codes "main", codes "c1") ∷ [];
  head = branch (codes "main");
  next_commit_num = 2;
}

-- state.branches[name], where an empty text counts as missing
unfoldable pub branch_tip : Text → List (Text × Text) → Option Text
unfolding lookup
branch_tip name branches = elim (lookup name branches) [
  | none ↦ none
  | some id ↦ if truthy id then some id else none
]

-- state.branches[state.head.branchName] || 'c1'
unfoldable pub head_id_of : HeadState → List (Text × Text) → Text
unfolding branch_tip
head_id_of (branch name) branches = elim (branch_tip name branches) [
  | none ↦ codes "c1"
  | some id ↦ id
]
head_id_of (detached id) branches = id

unfoldable pub get_head_commit_id : RepositoryState → Text
unfolding head_id_of
get_head_commit_id state = head_id_of state.head state.branches
