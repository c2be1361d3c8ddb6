-- ===== src/Git/Ancestry.antt =====
-- `isAncestor` of apps/web/src/modules/learning/git/reducer.ts: a depth-first search through the
-- parents, with a set of visited commits that all its calls share.
pub mod Laws
pub mod Order
use dev_box.Prelude.{
  ℕ, zero, suc, Bool, true, false, ◌||◌, List, [], ◌∷◌, Option, none, some, if◌then◌else◌, length,
}
use dev_box.Text.{Text, text_eq}
use dev_box.Dict.{lookup}
use dev_box.Git.Model.{Commit}

-- visited.has(id)
unfoldable pub contains : List Text → Text → Bool
contains [] id = false
contains (x ∷ xs) id = text_eq x id || contains xs id

-- The answer, and the visited set that the call leaves; `none` means that the fuel ran out.
abbrev pub Search : Type 0
Search = Option (Bool × List Text)

-- The `for` loop over the parents; its first argument is the recursive call.
unfoldable pub any_parent : (Text → List Text → Search) → List Text → List Text → Search
any_parent visit [] visited = some (false, visited)
any_parent visit (p ∷ ps) visited = elim (visit p visited) [
  | none ↦ none
  | some (found, visited') ↦ if found then some (true, visited') else any_parent visit ps visited'
]

unfoldable pub search : ℕ → List (Text × Commit) → Text → Text → List Text → Search
unfolding contains any_parent lookup
search zero commits ancestor start visited = none
search (suc fuel) commits ancestor start visited =
    let descend : Search = elim (lookup start commits) [
      | none ↦ some (false, start ∷ visited)
      | some c ↦ any_parent (search fuel commits ancestor) c.parents (start ∷ visited)
    ] in
    if text_eq ancestor start
    then some (true, visited)
    else if contains visited start
    then some (false, visited)
    else descend

-- Every nested call visits one more commit of the table, so its size plus one is enough fuel.
unfoldable pub is_ancestor : List (Text × Commit) → Text → Text → Bool
unfolding search
is_ancestor commits ancestor start =
    elim (search (suc (length commits)) commits ancestor start []) [
      | none ↦ false
      | some (found, _) ↦ found
    ]
