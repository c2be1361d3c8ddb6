-- ===== src/Git/Commands/Collect.antt =====
-- The `while` loop of `rebase` ends, and collects a walk along first parents.
use mathlib.Core.List.{reverse_aux}
use mathlib.Core.Path.{subst}
use dev_box.Prelude.{
  In, length, ◌≤◌, ap, some_inj, ℕ, zero, suc, ◌<◌, ◌≡◌, refl, sym, ◌∙◌, inl, inr, List, [], ◌∷◌,
  some, true, false, ◌||◌, arith, All, Bool-cases, List-cases,
}
use dev_box.Text.{Text, text_eq, truthy}
use dev_box.Text.Equality.{text_eq-cases}
use dev_box.Dict.{lookup}
use dev_box.Git.Model.{Commit, commit_id}
use dev_box.Git.Ancestry.{is_ancestor}
use dev_box.Git.Ancestry.Laws.{Ancestor, here, via, is_ancestor_iff}
use dev_box.Git.Ancestry.Order.{Ancestor-trans}
use dev_box.Git.Commands.{collect}
use dev_box.Git.Valid.{Commits, Exists, Older, IsGraph, commit_id-truthy, commit_id_injective}

-- The commits from the index down along first parents, as far as the first one that the target
-- already holds (itself or an ancestor of it), or down to a root.
pub data Walk (commits : Commits) (target : Text) : Text → List Commit → Type 0 where
  held : {id : Text} → Ancestor commits id target → Walk commits target id []
  root :
      {id : Text} (c : Commit)
      → ¬ Ancestor commits id target
      → lookup id commits ≡ some c
      → c.parents ≡ []
      → Walk commits target id (c ∷ [])
  step :
      {id : Text} (c : Commit) (p : Text) (ps : List Text) (rest : List Commit)
      → ¬ Ancestor commits id target
      → lookup id commits ≡ some c
      → c.parents ≡ p ∷ ps
      → Walk commits target p rest
      → Walk commits target id (c ∷ rest)

collect_held :
    (fuel : ℕ) (commits : Commits) (target id : Text) (acc : List Commit)
    → (text_eq id target || is_ancestor commits id target) ≡ true
    → collect (suc fuel) commits target id acc ≡ some acc
unfolding collect
collect_held fuel commits target id acc h = ground arith

module _ (fuel : ℕ) (commits : Commits) (target id : Text) (acc : List Commit) (c : Commit)
    (t : truthy id ≡ true) (differs : text_eq id target ≡ false)
    (far : is_ancestor commits id target ≡ false) (found : lookup id commits ≡ some c) where
  collect_root : c.parents ≡ [] → collect (suc fuel) commits target id acc ≡ some (c ∷ acc)
  unfolding collect
  collect_root e = ground arith

  collect_step :
      (p : Text) (ps : List Text)
      → c.parents ≡ p ∷ ps
      → collect (suc fuel) commits target id acc ≡ collect fuel commits target p (c ∷ acc)
  unfolding collect
  collect_step p ps e = ground arith

pub collect-Walk :
    (commits : Commits) (next : ℕ)
    → IsGraph commits next
    → (target : Text) (fuel k : ℕ) (id : Text) (acc : List Commit) → id ≡ commit_id k
    → k < fuel
    → Exists commits id
    → (walk : List Commit) × Walk commits target id walk
      × (collect fuel commits target id acc ≡ some (reverse_aux walk acc))
collect-Walk commits next g target zero k id acc named lt x = absurd (omega arith)
collect-Walk commits next g target (suc fuel) k id acc named lt (c, found) =
    elim (text_eq-cases id target) [
      | inl (same, e) ↦ ([], held (here e), collect_held fuel commits target id acc (rw same refl))
      | inr (differs, _) ↦ elim (Bool-cases (is_ancestor commits id target)) [
        | inl near ↦ (
          [],
          held ((is_ancestor_iff commits id target).0 near),
          collect_held fuel commits target id acc (rw (differs, near) refl),
        )
        | inr far ↦
            let apart : ¬ Ancestor commits id target =
              λ r. cc (far, (is_ancestor_iff commits id target).1 r) in
            let t : truthy id ≡ true = rw named (commit_id-truthy k) in
            let placed = g id c found in
            let same = commit_id_injective k placed.number (sym named ∙ placed.named) in
            elim (List-cases c.parents) [
              | inl none' ↦ (
                c ∷ [],
                root c apart found none',
                collect_root fuel commits target id acc c t differs far found none',
              )
              | inr (p, ps, e) ↦
                  let first : Older commits placed.number p =
                    (subst (All (Older commits placed.number)) e placed.parents).0 in
                  let (rest, w, run) =
                    collect-Walk commits next g target fuel first.0 p (c ∷ acc) first.1
                      (omega arith) first.3 in
                  (
                    c ∷ rest,
                    step c p ps rest apart found e w,
                    collect_step fuel commits target id acc c t differs far found p ps e ∙ run,
                  )
            ]
      ]
    ]

-- At most one parent.
abbrev pub Single : Commit → Type 0
Single c = length c.parents ≤ 1

only_parent :
    (parents : List Text) (p q : Text) (ps : List Text)
    → parents ≡ p ∷ ps
    → length parents ≤ 1
    → In q parents
    → q ≡ p
only_parent [] p q ps e le m = absurd m
only_parent (r ∷ []) p q ps e le (inl same) = cc
only_parent (r ∷ []) p q ps e le (inr m) = absurd m
only_parent (r ∷ r' ∷ rs) p q ps e le m = absurd (omega (arith, le))

-- A commit of the table, among some commits.
abbrev pub Among : Commits → Text → List Commit → Type 0
Among commits a walk = (c : Commit) × (lookup a commits ≡ some c) × In c walk

Among-cons :
    (commits : Commits) (a : Text) (c : Commit) (walk : List Commit)
    → Among commits a walk
    → Among commits a (c ∷ walk)
Among-cons commits a c walk (d, e, m) = (d, e, inr m)

-- Where each commit of a walk has one parent at most, all that the index reaches and the target does
-- not is on the walk.
pub Walk-complete :
    (commits : Commits) (target id a : Text) (walk : List Commit)
    → Walk commits target id walk
    → All Single walk
    → Ancestor commits a id
    → ¬ Ancestor commits a target
    → Among commits a walk
Walk-complete commits target id a walk (held near) single (here e) far =
    absurd (far (subst (λ k. Ancestor commits k target) (sym e) near))
Walk-complete commits target id a walk (held near) single (via p c found m up) far =
    absurd (far (Ancestor-trans commits (via p c found m up) near))
Walk-complete commits target id a walk (root c _ found _) single (here e) far =
    (c, ap (λ k. lookup k commits) e ∙ found, inl refl)
Walk-complete commits target id a walk (root c _ found none') single (via p d found' m up) far =
    let same : d ≡ c = some_inj d c (sym found' ∙ found) in absurd (rw (same, none') at m)
Walk-complete commits target id a walk (step c _ _ _ _ found _ _) single (here e) far =
    (c, ap (λ k. lookup k commits) e ∙ found, inl refl)
Walk-complete commits target id a walk (step c p ps rest _ found e w) (one, ones)
      (via q d found' m up) far =
    let same : d ≡ c = some_inj d c (sym found' ∙ found) in
    let m' : In q c.parents = subst (λ k. In q k.parents) same m in
    let first : q ≡ p = only_parent c.parents p q ps e one m' in
    Among-cons commits a c rest
      (Walk-complete commits target p a rest w ones (subst (Ancestor commits a) first up) far)
