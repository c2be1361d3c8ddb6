-- ===== src/Git/Commands/Grow.antt =====
-- New commits: one of them, and the replay loop of `rebase`.
use dev_box.Prelude.{ℕ, ◌+◌, ◌≡◌, refl, List, [], ◌∷◌, some, All, map}
use mathlib.Core.List.{reverse_aux}
use dev_box.Text.{Text}
use dev_box.Dict.{lookup, insert, lookup-insert_self}
use dev_box.Git.Model.{
  Commit, HeadState, branch, detached, RepositoryState, commit_id, get_head_commit_id,
}
use dev_box.Git.Commands.{add_commit, Replayed, replay}
use dev_box.Git.Valid.{
  Commits, Exists, HeadExists, IsValid, IsGraph, insert-IsGraph, insert_keeps, commit_id-truthy,
}
use dev_box.Git.Commands.Steps.{Keeps, move_head-IsValid, move_head-commits, get_head-move_head}

-- More commits, and a higher next number, under the same branches and HEAD.
HeadExists-grow :
    (s : RepositoryState) (commits : Commits) (n : ℕ)
    → ((id : Text) (c : Commit) → lookup id s.commits ≡ some c → lookup id commits ≡ some c)
    → (h : HeadState) → HeadExists h s
    → HeadExists h (record s { commits = commits; next_commit_num = n })
HeadExists-grow s commits n keeps (branch name) x = x
HeadExists-grow s commits n keeps (detached id) (c, e) = (c, keeps id c e)

pub grow-IsValid :
    (s : RepositoryState)
    → IsValid s
    → (commits : Commits) (n : ℕ) → IsGraph commits n
    → ((id : Text) (c : Commit) → lookup id s.commits ≡ some c → lookup id commits ≡ some c)
    → IsValid (record s { commits = commits; next_commit_num = n })
grow-IsValid s v commits n g keeps = record {
  graph = g;
  tips = λ name id e. let (c, f) = v.tips name id e in (c, keeps id c f);
  head = HeadExists-grow s commits n keeps s.head v.head;
}

-- What `add_commit` does to a valid repository.
pub record Adds (s : RepositoryState) (parents : List Text) (message : Text) (t : RepositoryState)
    : Type 0 where
  pub valid : IsValid t
  pub keeps : Keeps s t
  pub head : get_head_commit_id t ≡ commit_id s.next_commit_num
  pub commit :
      lookup (commit_id s.next_commit_num) t.commits
      ≡ some (record { id = commit_id s.next_commit_num; parents = parents; message = message })

pub add_commit-Adds :
    (s : RepositoryState)
    → IsValid s
    → (parents : List Text) (message : Text) → All (Exists s.commits) parents
    → Adds s parents message (add_commit parents message s)
unfolding add_commit
add_commit-Adds s v parents message known =
    let id = commit_id s.next_commit_num in
    let c : Commit = record { id = id; parents = parents; message = message } in
    let commits = insert id c s.commits in
    let keeps = insert_keeps s.commits s.next_commit_num v.graph c refl known in
    let g = insert-IsGraph s.commits s.next_commit_num v.graph c refl known in
    let grown : RepositoryState = record s {
      commits = commits;
      next_commit_num = s.next_commit_num + 1;
    } in
    let found = lookup-insert_self id c s.commits in
    let same = move_head-commits id grown in
    record {
      valid =
          move_head-IsValid grown (grow-IsValid s v commits (s.next_commit_num + 1) g keeps) id
            (c, found);
      keeps = λ i d e. rw same (keeps i d e);
      head = get_head-move_head grown id (commit_id-truthy s.next_commit_num);
      commit = rw same found;
    }

-- A chain of commits with one parent each, from `tip` down to `base`, with its messages.
pub data Linear (commits : Commits) (base : Text) : Text → List Text → Type 0 where
  stop : Linear commits base base []
  on :
      {p : Text} {messages : List Text} (id : Text) (c : Commit)
      → lookup id commits ≡ some c
      → c.parents ≡ p ∷ []
      → Linear commits base p messages
      → Linear commits base id (c.message ∷ messages)

Linear-grow :
    (small large : Commits) {base tip : Text} {messages : List Text}
    → ((id : Text) (c : Commit) → lookup id small ≡ some c → lookup id large ≡ some c)
    → Linear small base tip messages
    → Linear large base tip messages
Linear-grow small large keeps stop = stop
Linear-grow small large keeps (on id c e ps rest) =
    on id c (keeps id c e) ps (Linear-grow small large keeps rest)

-- The invariant of the replay loop, which starts from the commits `old` on top of `base`.
pub record Replays (old : Commits) (base : Text) (messages : List Text) (r : Replayed)
    : Type 0 where
  pub graph : IsGraph r.commits r.next_num
  pub tip : Exists r.commits r.tip
  pub keeps : (id : Text) (c : Commit) → lookup id old ≡ some c → lookup id r.commits ≡ some c
  pub linear : Linear r.commits base r.tip messages

pub replay-Replays :
    (old : Commits) (base : Text) (cs : List Commit) (messages : List Text) (r : Replayed)
    → Replays old base messages r
    → Replays old base (reverse_aux (map (λ (c : Commit). c.message) cs) messages) (replay cs r)
unfolding replay
replay-Replays old base [] messages r h = h
replay-Replays old base (c ∷ cs) messages r h =
    let id = commit_id r.next_num in
    let new : Commit = record { id = id; parents = r.tip ∷ []; message = c.message } in
    let keeps = insert_keeps r.commits r.next_num h.graph new refl (h.tip, tt) in
    let found = lookup-insert_self id new r.commits in
    replay-Replays old base cs (c.message ∷ messages)
      (record { commits = insert id new r.commits; tip = id; next_num = r.next_num + 1 })
      (record {
        graph = insert-IsGraph r.commits r.next_num h.graph new refl (h.tip, tt);
        tip = (new, found);
        keeps = λ i d e. keeps i d (h.keeps i d e);
        linear =
            on id new found refl (Linear-grow r.commits (insert id new r.commits) keeps h.linear);
      })
