-- ===== src/Git/Commands/Rebase.antt =====
-- `rebase`: the commits that the target lacks, replayed on top of it.
use mathlib.Core.Path.{subst}
use mathlib.Core.List.{reverse_aux, reverse_aux-reverse_aux-nil}
use dev_box.Prelude.{All, ◌≡◌, ◌≢◌, refl, sym, ◌∙◌, ap, List, [], ◌∷◌, some, map}
use dev_box.Text.{Text, trim, codes}
use dev_box.Git.Model.{Commit, RepositoryState, ok, error, get_head_commit_id}
use dev_box.Git.Ancestry.Laws.{Ancestor}
use dev_box.Git.Commands.{move_head, collect, Replayed, replay, rebase_onto, reduce_rebase, resolve}
use dev_box.Git.Valid.{Exists, IsValid}
use dev_box.Git.Commands.Steps.{
  resolve-Exists, head-Exists, move_head-commits, get_head-move_head, Exists-truthy,
}
use dev_box.Git.Commands.Grow.{grow-IsValid, Replays, replay-Replays, Linear, stop}
use dev_box.Git.Commands.Collect.{
  collect-Walk, Walk, held, root, step, Single, Among, Walk-complete,
}

abbrev pub messages : List Commit → List Text
messages = map (λ (c : Commit). c.message)

messages-reverse_aux :
    (walk acc : List Commit)
    → messages (reverse_aux walk acc) ≡ reverse_aux (messages walk) (messages acc)
messages-reverse_aux [] acc = refl
messages-reverse_aux (c ∷ walk) acc = messages-reverse_aux walk (c ∷ acc)

-- The walk is turned over twice.
messages_twice :
    (walk : List Commit) → reverse_aux (messages (reverse_aux walk [])) [] ≡ messages walk
messages_twice walk =
    ap (λ m. reverse_aux m []) (messages-reverse_aux walk [])
    ∙ reverse_aux-reverse_aux-nil (messages walk) []

-- The commits from HEAD down first parents to what the target holds are replayed in their order: with
-- their messages, each on top of the one before, and the first on top of the target. Without a
-- merge among them there is nothing else that HEAD reaches and the target does not.
pub record Rebases (s : RepositoryState) (id : Text) (t : RepositoryState) : Type 0 where
  pub lacking : List Commit
  pub walked : Walk s.commits id (get_head_commit_id s) lacking
  pub linear : Linear t.commits id (get_head_commit_id t) (messages lacking)
  pub complete :
      All Single lacking
      → (a : Text) → Ancestor s.commits a (get_head_commit_id s)
      → ¬ Ancestor s.commits a id
      → Among s.commits a lacking

module _ (s : RepositoryState) (v : IsValid s) (id : Text) (x : Exists s.commits id) where
  from : Replayed
  from = record { commits = s.commits; tip = id; next_num = s.next_commit_num }

  rebase_onto-Linear :
      (todo : List Commit)
      → todo ≢ []
      → (t : RepositoryState) × (rebase_onto id s todo ≡ ok t)
        × Linear t.commits id (get_head_commit_id t) (reverse_aux (messages todo) [])
  unfolding rebase_onto from
  rebase_onto-Linear [] ne = absurd (ne refl)
  rebase_onto-Linear (c ∷ cs) ne =
      let begin : Replays s.commits id [] from = record {
        graph = v.graph;
        tip = x;
        keeps = λ i d e. e;
        linear = stop;
      } in
      let done = replay-Replays s.commits id (c ∷ cs) [] from begin in
      let r = replay (c ∷ cs) from in
      let t : RepositoryState = record s { commits = r.commits; next_commit_num = r.next_num } in
      let valid = grow-IsValid s v r.commits r.next_num done.graph done.keeps in
      let at = get_head-move_head t r.tip (Exists-truthy t valid r.tip done.tip) in
      (
        move_head r.tip t,
        refl,
        subst (λ h. Linear (move_head r.tip t).commits id h (reverse_aux (messages (c ∷ cs)) []))
            (sym at)
            (subst (λ k. Linear k id r.tip (reverse_aux (messages (c ∷ cs)) []))
              (sym (move_head-commits r.tip t)) done.linear),
      )

  collected :
      (walk : List Commit) × Walk s.commits id (get_head_commit_id s) walk
      × (collect s.next_commit_num s.commits id (get_head_commit_id s) []
          ≡ some (reverse_aux walk []))
  collected =
      let y = head-Exists s v in
      let placed = v.graph (get_head_commit_id s) y.0 y.1 in
      collect-Walk s.commits s.next_commit_num v.graph id s.next_commit_num placed.number
        (get_head_commit_id s) [] placed.named placed.below y

  Walk-ne-nil :
      (walk : List Commit)
      → Walk s.commits id (get_head_commit_id s) walk
      → ¬ Ancestor s.commits (get_head_commit_id s) id
      → reverse_aux walk [] ≢ []
  Walk-ne-nil walk (held r) far e = far r
  Walk-ne-nil walk (root c _ _ _) far e = cc e
  Walk-ne-nil walk (step c p ps rest _ _ _ _) far e =
      cc (ap (λ l. reverse_aux l []) e, reverse_aux-reverse_aux-nil (c ∷ rest) [])

  Walk-nil :
      (walk : List Commit)
      → Walk s.commits id (get_head_commit_id s) walk
      → Ancestor s.commits (get_head_commit_id s) id
      → walk ≡ []
  Walk-nil walk (held r) near = refl
  Walk-nil walk (root c far _ _) near = absurd (far near)
  Walk-nil walk (step c p ps rest far _ _ _) near = absurd (far near)

-- In a valid repository a rebase onto a target that resolves to a commit answers that the branch is
-- up to date if the current commit is the target or an ancestor of it. Otherwise it succeeds, and
-- the new current commit is the end of a chain of single-parent commits on top of the target, which
-- bears the messages of the commits that lead from the old one, along first parents alone, to the
-- first one that the target holds, in their order. These are all that the old current commit
-- reaches and the target does not where each of them has one parent at most; what only a second
-- parent of one of them reaches is not replayed.
pub reduce_rebase-Rebases :
    (s : RepositoryState) (target id : Text)
    → IsValid s
    → resolve (trim target) s ≡ some id
    → (Ancestor s.commits (get_head_commit_id s) id
        → reduce_rebase target s ≡ error (codes "Current branch is already up to date with target"))
      × (¬ Ancestor s.commits (get_head_commit_id s) id
          → (t : RepositoryState) × (reduce_rebase target s ≡ ok t) × Rebases s id t)
unfolding reduce_rebase
reduce_rebase-Rebases s target id v e =
    let x = resolve-Exists s v (trim target) id e in
    let (walk, w, run) = collected s v id x in
    (
      λ near.
          rw (reduce_rebase, e, run, Walk-nil s v id x walk w near) (unfold rebase_onto in refl),
      λ far.
          let (t, made, linear) =
            rebase_onto-Linear s v id x (reverse_aux walk []) (Walk-ne-nil s v id x walk w far) in
          (
            t,
            rw (reduce_rebase, e, run) made,
            record {
              lacking = walk;
              walked = w;
              linear = rw (← messages_twice walk) linear;
              complete = λ ones a near apart.
                  Walk-complete s.commits id (get_head_commit_id s) a walk w ones near apart;
            },
          ),
    )
