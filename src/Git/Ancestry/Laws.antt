-- ===== src/Git/Ancestry/Laws.antt =====
-- The search decides ancestry, for every table of commits, cyclic ones included.
use dev_box.Prelude.{
  ℕ, zero, suc, ◌+◌, ◌≤◌, ◌<◌, ◌≡◌, ◌≢◌, ◌↔◌, ◌⊎◌, inl, inr, refl, sym, ap, ◌∙◌, Bool, true, false,
  List, [], ◌∷◌, none, some, if◌then◌else◌, length, arith, In, Bool-cases, Option-cases,
}
use dev_box.Text.{Text, text_eq}
use dev_box.Text.Equality.{text_eq_iff, text_eq-cases, text_eq_refl}
use dev_box.Dict.{lookup}
use dev_box.Git.Model.{Commit}
use dev_box.Git.Ancestry.{contains, Search, any_parent, search, is_ancestor}

-- `a` is reached from the index by going from commits to their parents.
pub data Ancestor (commits : List (Text × Commit)) (a : Text) : Text → Type 0 where
  here : {s : Text} → a ≡ s → Ancestor commits a s
  via :
      {s : Text} (p : Text) (c : Commit)
      → lookup s commits ≡ some c
      → In p c.parents
      → Ancestor commits a p
      → Ancestor commits a s

contains-In : (xs : List Text) (v : Text) → contains xs v ≡ true → In v xs
unfolding contains
contains-In [] v h = ground arith
contains-In (x ∷ xs) v h = ground (arith, text_eq_iff x v, contains-In xs v)

In-contains : (xs : List Text) (v : Text) → In v xs → contains xs v ≡ true
unfolding contains
In-contains [] v m = absurd m
In-contains (x ∷ xs) v m = ground (arith, text_eq_iff x v, In-contains xs v)

-- The commits of the table that are not visited yet.
unseen : List (Text × Commit) → List Text → ℕ
unseen [] visited = 0
unseen ((k, c) ∷ rest) visited = (if contains visited k then 0 else 1) + unseen rest visited

unseen-nil : (commits : List (Text × Commit)) → unseen commits [] ≡ length commits
unfolding unseen contains
unseen-nil [] = refl
unseen-nil (e ∷ rest) = omega (arith, unseen-nil rest)

unseen_visit :
    (commits : List (Text × Commit)) (s : Text) (visited : List Text)
    → unseen commits (s ∷ visited) ≤ unseen commits visited
unfolding unseen contains
unseen_visit [] s visited = omega arith
unseen_visit ((k, c) ∷ rest) s visited = ground (arith, unseen_visit rest s visited)

unseen_visit_lt :
    (commits : List (Text × Commit)) (s : Text) (visited : List Text) (c : Commit)
    → lookup s commits ≡ some c
    → contains visited s ≡ false
    → unseen commits (s ∷ visited) < unseen commits visited
unfolding unseen contains lookup
unseen_visit_lt [] s visited c e h = cc
unseen_visit_lt ((k, d) ∷ rest) s visited c e h = ground (
  arith,
  text_eq_iff k s,
  text_eq_refl s,
  unseen_visit rest s visited,
  unseen_visit_lt rest s visited c,
)

-- A call ends, and leaves no more commits unvisited than it found.
abbrev Ends : List (Text × Commit) → List Text → Search → Type 0
Ends commits visited r =
    (out : Bool × List Text) × (r ≡ some out) × (unseen commits out.1 ≤ unseen commits visited)

any_parent_step :
    (visit : Text → List Text → Search) (p : Text) (ps visited : List Text) (out : Bool × List Text)
    → visit p visited ≡ some out
    → any_parent visit (p ∷ ps) visited
      ≡ (if out.0 then some (true, out.1) else any_parent visit ps out.1)
unfolding any_parent
any_parent_step visit p ps visited out e = rw (any_parent, e) refl

module _ (commits : List (Text × Commit)) (n : ℕ) (visit : Text → List Text → Search)
    (ends : (p : Text) (visited : List Text)
      → unseen commits visited < n
      → Ends commits visited (visit p visited)) where
  any_parent-Ends :
      (ps visited : List Text)
      → unseen commits visited < n
      → Ends commits visited (any_parent visit ps visited)
  unfolding any_parent
  any_parent-Ends [] visited h = ((false, visited), refl, omega arith)
  any_parent-Ends (p ∷ ps) visited h =
      let (out, e, le) = ends p visited h in
      elim (Bool-cases out.0) [
        | inl found ↦ ((true, out.1), rw (any_parent_step visit p ps visited out e, found) refl, le)
        | inr missed ↦
            let (out', e', le') = any_parent-Ends ps out.1 (omega arith) in
            (out', rw (any_parent_step visit p ps visited out e, missed) e', omega arith)
      ]

search-Ends :
    (fuel : ℕ) (commits : List (Text × Commit)) (a s : Text) (visited : List Text)
    → unseen commits visited < fuel
    → Ends commits visited (search fuel commits a s visited)
unfolding search
search-Ends zero commits a s visited h = elim h [ ]
search-Ends (suc fuel) commits a s visited h = elim (Bool-cases (text_eq a s)) [
  | inl same ↦ ((true, visited), rw same refl, omega arith)
  | inr other ↦ elim (Bool-cases (contains visited s)) [
    | inl old ↦ ((false, visited), rw (other, old) refl, omega arith)
    | inr new ↦ elim (Option-cases (lookup s commits)) [
      | inl missing ↦
          ((false, s ∷ visited), rw (other, new, missing) refl, unseen_visit commits s visited)
      | inr (c, found) ↦
          let lt = unseen_visit_lt commits s visited c found new in
          let (out, e, le) =
            any_parent-Ends commits fuel (search fuel commits a)
              (λ p v k. search-Ends fuel commits a p v k) c.parents (s ∷ visited) (omega arith) in
          (out, rw (other, new, found) e, omega arith)
    ]
  ]
]

any_parent_stopped :
    (visit : Text → List Text → Search) (p : Text) (ps visited : List Text)
    → visit p visited ≡ none
    → any_parent visit (p ∷ ps) visited ≡ none
unfolding any_parent
any_parent_stopped visit p ps visited e = rw (any_parent, e) refl

-- The first parent answers the loop, or was passed over.
any_parent_inv :
    (visit : Text → List Text → Search) (p : Text) (ps visited : List Text) (out : Bool × List Text)
    → any_parent visit (p ∷ ps) visited ≡ some out
    → ((w : List Text) × (visit p visited ≡ some (true, w)) × (out ≡ (true, w)))
      ⊎ ((w : List Text) × (visit p visited ≡ some (false, w)) × (any_parent visit ps w ≡ some out))
any_parent_inv visit p ps visited out e = elim (Option-cases (visit p visited)) [
  | inl stopped ↦ cc (sym (any_parent_stopped visit p ps visited stopped) ∙ e)
  | inr (r, first) ↦
      let e' = sym (any_parent_step visit p ps visited r first) ∙ e in
      elim (Bool-cases r.0) [
        | inl found ↦ inl (r.1, rw first (ground arith), ground arith)
        | inr missed ↦ inr (r.1, rw first (ground arith), ground arith)
      ]
]

module _ (commits : List (Text × Commit)) (a : Text) where
  any_parent_found :
      (visit : Text → List Text → Search)
      → ((p : Text) (visited w : List Text)
          → visit p visited ≡ some (true, w)
          → Ancestor commits a p)
      → (ps visited w : List Text) → any_parent visit ps visited ≡ some (true, w)
      → (p : Text) × In p ps × Ancestor commits a p
  any_parent_found visit sound [] visited w e = unfold any_parent in cc
  any_parent_found visit sound (p ∷ ps) visited w e =
      elim (any_parent_inv visit p ps visited (true, w) e) [
        | inl (u, first, _) ↦ (p, inl refl, sound p visited u first)
        | inr (u, _, rest) ↦
            let (q, m, r) = any_parent_found visit sound ps u w rest in (q, inr m, r)
      ]

  search_found :
      (fuel : ℕ) (s : Text) (visited w : List Text)
      → search fuel commits a s visited ≡ some (true, w)
      → Ancestor commits a s
  unfolding search
  search_found zero s visited w e = cc
  search_found (suc fuel) s visited w e = elim (text_eq-cases a s) [
    | inl (_, same) ↦ here same
    | inr (other, _) ↦ elim (Bool-cases (contains visited s)) [
      | inl old ↦ cc (rw (other, old) at e)
      | inr new ↦ elim (Option-cases (lookup s commits)) [
        | inl missing ↦ cc (rw (other, new, missing) at e)
        | inr (c, found) ↦
            let (p, m, r) =
              any_parent_found (search fuel commits a) (search_found fuel) c.parents (s ∷ visited) w
                (rw (other, new, found) at e) in
            via p c found m r
      ]
    ]
  ]

  -- A visited commit that is not the ancestor, and whose parents are visited.
  abbrev Explored : List Text → Text → Type 0
  Explored w v =
      (a ≢ v) × ((c : Commit) → lookup v commits ≡ some c → (p : Text) → In p c.parents → In p w)

  record Covers (visited w : List Text) : Type 0 where
    keeps : (v : Text) → In v visited → In v w
    explores : (v : Text) → In v w → In v visited ⊎ Explored w v

  Covers-refl : (u : List Text) → Covers u u
  Covers-refl u = record { keeps = λ v m. m; explores = λ v m. inl m }

  Covers-trans : (u v w : List Text) → Covers u v → Covers v w → Covers u w
  Covers-trans u v w f g = record {
    keeps = λ x m. g.keeps x (f.keeps x m);
    explores = λ x m. elim (g.explores x m) [
      | inr e ↦ inr e
      | inl m' ↦ elim (f.explores x m') [
        | inl old ↦ inl old
        | inr (ne, up) ↦ inr (ne, λ c e p i. g.keeps p (up c e p i))
      ]
    ];
  }

  Covers-new :
      (s : Text) (visited w : List Text)
      → Covers (s ∷ visited) w
      → a ≢ s
      → ((c : Commit) → lookup s commits ≡ some c → (p : Text) → In p c.parents → In p w)
      → Covers visited w
  Covers-new s visited w c ne up = record {
    keeps = λ v m. c.keeps v (inr m);
    explores = λ v m. elim (c.explores v m) [
      | inr e ↦ inr e
      | inl (inr old) ↦ inl old
      | inl (inl e) ↦ inr (λ q. ne (q ∙ e), λ d l p i. up d (rw (← e) l) p i)
    ];
  }

  any_parent_missed :
      (visit : Text → List Text → Search)
      → ((p : Text) (visited w : List Text)
          → visit p visited ≡ some (false, w)
          → Covers visited w × In p w)
      → (ps visited w : List Text) → any_parent visit ps visited ≡ some (false, w)
      → Covers visited w × ((p : Text) → In p ps → In p w)
  any_parent_missed visit covers [] visited w e =
      let same : visited ≡ w = unfold any_parent in ground arith in
      (rw (← same) (Covers-refl visited), λ p m. absurd m)
  any_parent_missed visit covers (p ∷ ps) visited w e =
      elim (any_parent_inv visit p ps visited (false, w) e) [
        | inl (u, _, same) ↦ cc (ap (λ (x : Bool × List Text). x.0) same)
        | inr (u, first, rest) ↦
            let (c, m) = covers p visited u first in
            let (c', ms) = any_parent_missed visit covers ps u w rest in
            (
              Covers-trans visited u w c c',
              λ q i. elim i [ inl here' ↦ rw here' (c'.keeps p m) | inr i' ↦ ms q i' ],
            )
      ]

  search_missed :
      (fuel : ℕ) (s : Text) (visited w : List Text)
      → search fuel commits a s visited ≡ some (false, w)
      → Covers visited w × In s w
  unfolding search
  search_missed zero s visited w e = cc
  search_missed (suc fuel) s visited w e = elim (text_eq-cases a s) [
    | inl (same, _) ↦ absurd (cc (rw same at e))
    | inr (other, ne) ↦ elim (Bool-cases (contains visited s)) [
      | inl old ↦
          let same : visited ≡ w = ground (arith, rw (other, old) at e) in
          rw (← same) (Covers-refl visited, contains-In visited s old)
      | inr new ↦ elim (Option-cases (lookup s commits)) [
        | inl missing ↦
            let same : s ∷ visited ≡ w = ground (arith, rw (other, new, missing) at e) in
            rw (← same) (
              Covers-new s visited (s ∷ visited) (Covers-refl (s ∷ visited)) ne (λ d l. cc),
              inl refl,
            )
        | inr (c, found) ↦
            let (covers, up) =
              any_parent_missed (search fuel commits a) (search_missed fuel) c.parents (s ∷ visited)
                w (rw (other, new, found) at e) in
            (
              Covers-new s visited w covers ne
                  (λ d l p i. up p (let same : d ≡ c = ground arith in rw (← same) i)),
              covers.keeps s (inl refl),
            )
      ]
    ]
  ]

  unreached : (w : List Text) → Covers [] w → {v : Text} → Ancestor commits a v → In v w → ⊥
  unreached w covers (here e) m = elim (covers.explores _ m) [ inl old ↦ old | inr (ne, up) ↦ ne e ]
  unreached w covers (via p c l i r) m = elim (covers.explores _ m) [
    | inl old ↦ old
    | inr (ne, up) ↦ unreached w covers r (up c l p i)
  ]

pub search_total :
    (commits : List (Text × Commit)) (a s : Text)
    → (out : Bool × List Text) × (search (suc (length commits)) commits a s [] ≡ some out)
search_total commits a s =
    let (out, e, _) =
      search-Ends (suc (length commits)) commits a s [] (omega (arith, unseen-nil commits)) in
    (out, e)

pub is_ancestor_sound :
    (commits : List (Text × Commit)) (a s : Text)
    → is_ancestor commits a s ≡ true
    → Ancestor commits a s
unfolding is_ancestor
is_ancestor_sound commits a s h =
    let (out, e) = search_total commits a s in
    search_found commits a (suc (length commits)) s [] out.1
      (rw e (let yes' : out.0 ≡ true = rw (is_ancestor, e) at h in ground arith))

pub is_ancestor_complete :
    (commits : List (Text × Commit)) (a s : Text)
    → Ancestor commits a s
    → is_ancestor commits a s ≡ true
unfolding is_ancestor
is_ancestor_complete commits a s r =
    let (out, e) = search_total commits a s in
    rw (is_ancestor, e)
      (elim (Bool-cases out.0) [
        | inl found ↦ found
        | inr missed ↦
            let (covers, m) =
              search_missed commits a (suc (length commits)) s [] out.1 (rw e (ground arith)) in
            absurd (unreached commits a out.1 covers r m)
      ])

-- `isAncestor` answers true exactly for the commits that are reached from the start by going to
-- parents, in any table of commits, also one with cycles or with parents that are missing.
pub is_ancestor_iff :
    (commits : List (Text × Commit)) (ancestor start : Text)
    → (is_ancestor commits ancestor start ≡ true) ↔ Ancestor commits ancestor start
is_ancestor_iff commits a s = (is_ancestor_sound commits a s, is_ancestor_complete commits a s)
