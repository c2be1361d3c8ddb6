-- ===== src/Git/Sessions.antt =====
-- The repositories that a learner can reach from the initial one.
use mathlib.Core.Path.{subst}
use dev_box.Prelude.{ap, ◌≡◌, refl, sym, ◌∙◌, [], arith, some}
use dev_box.Text.{Text, codes, text_eq}
use dev_box.Dict.{lookup, lookup-singleton}
use dev_box.Git.Model.{
  RepositoryState, GitCommand, ok, commit_id, create_initial_repository, Commit,
}
use dev_box.Git.Commands.{reduce_repository}
use dev_box.Git.Commands.Safety.{Safe, reduce_repository-Safe}
use dev_box.Git.Valid.{IsValid, IsGraph, Exists}

-- A command that succeeds is a step; one that fails leaves the repository as it was.
pub data Reachable : RepositoryState → Type 0 where
  start : Reachable create_initial_repository
  run :
      {s : RepositoryState} (command : GitCommand) (t : RepositoryState)
      → Reachable s
      → reduce_repository s command ≡ ok t
      → Reachable t

initial-IsGraph :
    IsGraph create_initial_repository.commits create_initial_repository.next_commit_num
unfolding commit_id
initial-IsGraph id c e =
    let (named, same) = lookup-singleton _ id _ c e in
    record {
      number = 1;
      named = sym named;
      own_id = ap (λ (x : Commit). x.id) (sym same) ∙ named;
      below = omega arith;
      parents = rw (← same) tt;
    }

initial_tips :
    (name id : Text)
    → lookup name create_initial_repository.branches ≡ some id
    → Exists create_initial_repository.commits id
unfolding lookup text_eq
initial_tips name id e =
    let (_, same) = lookup-singleton (codes "main") name (codes "c1") id e in
    rw (← same) (record { id = codes "c1"; parents = []; message = codes "Initial commit" }, refl)

initial-IsValid : IsValid create_initial_repository
unfolding lookup text_eq
initial-IsValid = record { graph = initial-IsGraph; tips = initial_tips; head = (codes "c1", refl) }

-- Every repository that is reached from the initial one by commands is valid: HEAD and all
-- branches stand on commits, no parent is missing, and parents have smaller numbers.
pub Reachable-IsValid : {s : RepositoryState} → Reachable s → IsValid s
Reachable-IsValid start = initial-IsValid
Reachable-IsValid (run {s} command t r e) =
    let safe : Safe s (ok t) =
      subst (Safe s) e (reduce_repository-Safe s command (Reachable-IsValid r)) in
    safe.0
