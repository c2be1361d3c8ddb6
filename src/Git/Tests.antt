-- ===== src/Git/Tests.antt =====
-- Runs of the sandbox, and the theorems about it at repositories that the runs reach.
use dev_box.Prelude.{◌++◌, ◌≡◌, ◌↔◌, refl, [], ◌∷◌, true, false, some, none}
use dev_box.Text.{Text, codes, text_eq, trim}
use dev_box.Git.Model.{
  Commit, branch, RepositoryState, GitCommand, commit, switch, merge, rebase, ok, error,
  get_head_commit_id, create_initial_repository,
}
use dev_box.Git.Ancestry.{is_ancestor}
use dev_box.Git.Ancestry.Laws.{Ancestor, is_ancestor_iff}
use dev_box.Git.Commands.{resolve, reduce_merge, reduce_rebase, reduce_repository}
use dev_box.Git.Commands.Safety.{Safe, reduce_repository-Safe}
use dev_box.Git.Commands.Merge.{Merges, reduce_merge-Merges}
use dev_box.Git.Commands.Rebase.{Rebases, reduce_rebase-Rebases}
use dev_box.Git.Commands.Branches.{Spares, reduce_repository-Spares}
use dev_box.Git.Valid.{IsValid}
use dev_box.Git.Sessions.{Reachable, start, run, Reachable-IsValid}

abbrev entry : Text → Text → Text → Text × Commit
entry id parent message = (id, record { id = id; parents = parent ∷ []; message = message })

-- A branch `topic` with one commit, while `main` got another one.
abbrev forked : RepositoryState
forked = record {
  commits =
      (codes "c1", record { id = codes "c1"; parents = []; message = codes "Initial commit" })
      ∷ entry (codes "c2") (codes "c1") (codes "on topic")
      ∷ entry (codes "c3") (codes "c1") (codes "Commit c3")
      ∷ [];
  branches = (codes "main", codes "c3") ∷ (codes "topic", codes "c2") ∷ [];
  head = branch (codes "main");
  next_commit_num = 4;
}

abbrev on_topic : RepositoryState
on_topic = record {
  commits =
      (codes "c1", record { id = codes "c1"; parents = []; message = codes "Initial commit" }) ∷ [];
  branches = (codes "main", codes "c1") ∷ (codes "topic", codes "c1") ∷ [];
  head = branch (codes "topic");
  next_commit_num = 2;
}

abbrev topic_ahead : RepositoryState
topic_ahead = record on_topic {
  commits =
      (codes "c1", record { id = codes "c1"; parents = []; message = codes "Initial commit" })
      ∷ entry (codes "c2") (codes "c1") (codes "on topic")
      ∷ [];
  branches = (codes "main", codes "c1") ∷ (codes "topic", codes "c2") ∷ [];
  next_commit_num = 3;
}

abbrev back_on_main : RepositoryState
back_on_main = record topic_ahead { head = branch (codes "main") }

forked-Reachable : Reachable forked
unfolding reduce_repository text_eq
forked-Reachable =
    run (commit none) forked
      (run (switch (codes " main ") false) back_on_main
        (run (commit (some (codes "on topic"))) topic_ahead
          (run (switch (codes "topic") true) on_topic start refl) refl)
        refl)
      refl

Reachable-IsValid_example : IsValid forked
Reachable-IsValid_example = Reachable-IsValid forked-Reachable

is_ancestor_iff_example :
    (is_ancestor forked.commits (codes "c1") (codes "c3") ≡ true)
    ↔ Ancestor forked.commits (codes "c1") (codes "c3")
is_ancestor_iff_example = is_ancestor_iff forked.commits (codes "c1") (codes "c3")

reduce_repository-Safe_example :
    Safe forked (reduce_repository forked (GitCommand.rebase (codes "topic")))
reduce_repository-Safe_example =
    reduce_repository-Safe forked (rebase (codes "topic")) Reachable-IsValid_example

reduce_repository-Spares_example : Spares forked (reduce_repository forked (merge (codes "topic")))
reduce_repository-Spares_example =
    reduce_repository-Spares forked (merge (codes "topic")) Reachable-IsValid_example

topic_resolved : resolve (trim (codes "topic")) forked ≡ some (codes "c2")
unfolding resolve trim text_eq
topic_resolved = refl

reduce_merge-Merges_example : Merges forked (codes "c2") (reduce_merge (codes "topic") forked)
reduce_merge-Merges_example =
    reduce_merge-Merges forked (codes "topic") (codes "c2") Reachable-IsValid_example topic_resolved

reduce_rebase-Rebases_example :
    (Ancestor forked.commits (get_head_commit_id forked) (codes "c2")
      → reduce_rebase (codes "topic") forked
        ≡ error (codes "Current branch is already up to date with target"))
    × (¬ Ancestor forked.commits (get_head_commit_id forked) (codes "c2")
        → (t : RepositoryState) × (reduce_rebase (codes "topic") forked ≡ ok t)
          × Rebases forked (codes "c2") t)
reduce_rebase-Rebases_example =
    reduce_rebase-Rebases forked (codes "topic") (codes "c2") Reachable-IsValid_example
      topic_resolved

-- `main` is a merge of two commits behind the first one, and `other` a third commit behind it.
abbrev merged : RepositoryState
merged = record {
  commits =
      (codes "c1", record { id = codes "c1"; parents = []; message = codes "Initial commit" })
      ∷ entry (codes "c2") (codes "c1") (codes "on topic")
      ∷ entry (codes "c3") (codes "c1") (codes "on main")
      ∷ (
        codes "c4",
        record { id = codes "c4"; parents = codes "c3" ∷ codes "c2" ∷ []; message = codes "merge" },
      )
      ∷ entry (codes "c5") (codes "c1") (codes "on other")
      ∷ [];
  branches = (codes "main", codes "c4") ∷ (codes "other", codes "c5") ∷ [];
  head = branch (codes "main");
  next_commit_num = 6;
}

-- The commit c2, which `main` reaches and `other` does not, is not replayed.
merge_lost :
    reduce_repository merged (GitCommand.rebase (codes "other"))
    ≡ ok (record {
      commits =
          merged.commits
          ++ entry (codes "c6") (codes "c5") (codes "on main")
            ∷ entry (codes "c7") (codes "c6") (codes "merge")
            ∷ [];
      branches = (codes "main", codes "c7") ∷ (codes "other", codes "c5") ∷ [];
      head = branch (codes "main");
      next_commit_num = 8;
    })
unfolding reduce_repository text_eq
merge_lost = refl

-- A blank name is refused by `branch`, and made into a branch by `switch -c`.
blank_branch :
    reduce_repository create_initial_repository (GitCommand.branch (codes " "))
    ≡ error (codes "Branch name cannot be empty")
unfolding reduce_repository text_eq
blank_branch = refl

blank_switch :
    reduce_repository create_initial_repository (switch (codes " ") true)
    ≡ ok (record create_initial_repository {
      branches = (codes "main", codes "c1") ∷ ([], codes "c1") ∷ [];
      head = branch [];
    })
unfolding reduce_repository text_eq
blank_switch = refl
