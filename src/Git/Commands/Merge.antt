-- ===== src/Git/Commands/Merge.antt =====
-- `merge`: fast-forward, merge commit, and when there is nothing to do.
use mathlib.Core.Path.{subst}
use dev_box.Prelude.{◌≡◌, ◌≢◌, refl, sym, [], ◌∷◌, inl, inr, some, Bool-cases}
use dev_box.Text.{Text, trim}
use dev_box.Text.Equality.{text_eq-cases}
use dev_box.Git.Model.{RepositoryState, Outcome, ok, get_head_commit_id}
use dev_box.Git.Ancestry.{is_ancestor}
use dev_box.Git.Ancestry.Laws.{Ancestor, here, via, is_ancestor_iff}
use dev_box.Git.Ancestry.Order.{Ancestor-antisymm}
use dev_box.Git.Commands.{move_head, add_commit, up_to_date, merge_commits, reduce_merge, resolve}
use dev_box.Git.Valid.{Exists, IsValid}
use dev_box.Git.Commands.Steps.{
  resolve-Exists, head-Exists, move_head-commits, get_head-move_head, Exists-truthy,
}
use dev_box.Git.Commands.Grow.{add_commit-Adds}

-- What a merge of commit `id` into `s` should give.
abbrev pub Merges : RepositoryState → Text → Outcome → Type 0
Merges s id (ok t) =
    Ancestor t.commits (get_head_commit_id s) (get_head_commit_id t)
    × Ancestor t.commits id (get_head_commit_id t)
    × ¬ Ancestor s.commits id (get_head_commit_id s)
    × (Ancestor s.commits (get_head_commit_id s) id
        → (t.commits ≡ s.commits) × (get_head_commit_id t ≡ id))
Merges s id o = (o ≡ up_to_date) × Ancestor s.commits id (get_head_commit_id s)

module _ (s : RepositoryState) (v : IsValid s) (target id : Text) (x : Exists s.commits id) where
  fast_forward :
      id ≢ get_head_commit_id s
      → Ancestor s.commits (get_head_commit_id s) id
      → Merges s id (ok (move_head id s))
  fast_forward other r =
      let at : get_head_commit_id (move_head id s) ≡ id =
        get_head-move_head s id (Exists-truthy s v id x) in
      let same = move_head-commits id s in
      (
        subst (λ h. Ancestor (move_head id s).commits (get_head_commit_id s) h) (sym at)
            (rw same r),
        here (sym at),
        λ r'. other (
            Ancestor-antisymm s.commits s.next_commit_num v.graph id (get_head_commit_id s)
              (head-Exists s v) r' r),
        λ _. (same, at),
      )

  merge_commit :
      (message : Text)
      → ¬ Ancestor s.commits (get_head_commit_id s) id
      → ¬ Ancestor s.commits id (get_head_commit_id s)
      → Merges s id (ok (add_commit (get_head_commit_id s ∷ id ∷ []) message s))
  merge_commit message apart apart' =
      let current = get_head_commit_id s in
      let a = add_commit-Adds s v (current ∷ id ∷ []) message (head-Exists s v, (x, tt)) in
      (
        rw a.head (via current _ a.commit (inl refl) (here refl)),
        rw a.head (via id _ a.commit (inr (inl refl)) (here refl)),
        apart',
        λ r. absurd (apart r),
      )

  pub merge_commits-Merges : Merges s id (merge_commits target id s)
  unfolding merge_commits
  merge_commits-Merges = elim (text_eq-cases id (get_head_commit_id s)) [
    | inl (same, e) ↦ rw (merge_commits, same) (refl, here e)
    | inr (other, ne) ↦ elim (Bool-cases (is_ancestor s.commits (get_head_commit_id s) id)) [
      | inl ahead ↦
          rw (merge_commits, other, ahead)
            (fast_forward ne ((is_ancestor_iff s.commits (get_head_commit_id s) id).0 ahead))
      | inr apart ↦ elim (Bool-cases (is_ancestor s.commits id (get_head_commit_id s))) [
        | inl behind ↦
            rw (merge_commits, other, apart, behind)
              (refl, (is_ancestor_iff s.commits id (get_head_commit_id s)).0 behind)
        | inr split ↦
            rw (merge_commits, other, apart, split)
              (merge_commit _
                (λ r. cc (apart, (is_ancestor_iff s.commits (get_head_commit_id s) id).1 r))
                (λ r. cc (split, (is_ancestor_iff s.commits id (get_head_commit_id s)).1 r)))
      ]
    ]
  ]

-- In a valid repository a merge of a target that resolves to a commit answers "Already up to
-- date." exactly if the target is the current commit or an ancestor of it; otherwise it succeeds,
-- the former current commit and the target are then both the new current commit or ancestors of
-- it, and if the current commit was an ancestor of the target, then HEAD only moves to the target
-- and no commit is made.
pub reduce_merge-Merges :
    (s : RepositoryState) (target id : Text)
    → IsValid s
    → resolve (trim target) s ≡ some id
    → Merges s id (reduce_merge target s)
unfolding reduce_merge
reduce_merge-Merges s target id v e =
    rw (reduce_merge, e)
      (merge_commits-Merges s v (trim target) id (resolve-Exists s v (trim target) id e))
