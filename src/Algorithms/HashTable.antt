-- ===== src/Algorithms/HashTable.antt =====
-- The hash tables of apps/web/src/modules/learning/algorithms/structures.ts.
pub mod Buckets
pub mod Probing
pub mod Rounds
use Prim.Native.String.{String}
use dev_box.Prelude.{
  ℕ, zero, suc, ◌+◌, ◌-◌, ◌*◌, ◌%◌, Bool, true, false, not, ◌||◌, List, [], ◌∷◌, ◌++◌, map,
  if◌then◌else◌, length, ltb, ◌==◌, get_or, set, replicate, head_or,
}
use dev_box.Prelude.Int.{ℤ, pos, pos_part, ltb_ℤ, eqb_ℤ, nat_abs}
use dev_box.Algorithms.Steps.{
  Piece, lit, num, nat, nums, ratio, Mark, index, Step, Run, done, input_error, max_elements,
  assert_size,
}

pub data CollisionStrategy : Type 0 where
  chaining linear_probing quadratic_probing : CollisionStrategy

-- strategy.replace('-', ' ')
abbrev pub spelled : CollisionStrategy → String
spelled chaining = "chaining"
spelled linear_probing = "linear probing"
spelled quadratic_probing = "quadratic probing"

abbrev pub Buckets : Type 0
Buckets = List (List ℤ)

-- The load factor is kept as its two numbers.
pub record HashTableState : Type 0 where
  pub buckets : Buckets
  pub strategy : CollisionStrategy
  pub probed : List ℕ
  pub rejected : List ℤ
  pub load_factor : ℕ × ℕ

-- The variables of the generator.
pub record Table : Type 0 where
  pub buckets : Buckets
  pub rejected : List ℤ
  pub stored : ℕ

unfoldable pub hash_value : ℤ → ℕ → ℕ
hash_value v size = nat_abs v % size

-- bucket.includes(value)
unfoldable pub includes : List ℤ → ℤ → Bool
includes [] v = false
includes (x ∷ xs) v = eqb_ℤ x v || includes xs v

abbrev pub bucket : Table → ℕ → List ℤ
bucket t i = get_or t.buckets i []

-- buckets[i].push(value); stored++
unfoldable pub push : ℕ → ℤ → Table → Table
push i v t = record t { buckets = set t.buckets i (bucket t i ++ v ∷ []); stored = t.stored + 1 }

-- rejected.push(value)
unfoldable pub reject : ℤ → Table → Table
reject v t = record t { rejected = t.rejected ++ v ∷ [] }

abbrev plural : ℕ → String
plural n = if n == 1 then "" else "s"

-- new Set(probed).size
distinct : List ℕ → ℕ
distinct [] = 0
distinct (x ∷ xs) = (if seen x xs then 0 else 1) + distinct xs
  where
    seen : ℕ → List ℕ → Bool
    seen a [] = false
    seen a (b ∷ bs) = (a == b) || seen a bs

-- The steps so far and the table behind them.
abbrev pub Filled : Type 0
Filled = List (Step HashTableState) × Table

module _ (size : ℕ) (strategy : CollisionStrategy) where
  abbrev pub snapshot : Table → List ℕ → HashTableState
  snapshot t probed = record {
    buckets = t.buckets;
    strategy = strategy;
    probed = probed;
    rejected = t.rejected;
    load_factor = (t.stored, size);
  }

  abbrev pub say : Table → List ℕ → List Piece → List ℕ → Step HashTableState
  say t probed explanation highlighted = record {
    state = snapshot t probed;
    explanation = explanation;
    highlighted = map index highlighted;
  }

  -- Separate chaining.
  unfoldable pub chain_value : ℤ → Table → Filled
  unfolding hash_value includes push
  chain_value v t =
      let home = hash_value v size in
      let here = home ∷ [] in
      let t' = push home v t in
      if includes (bucket t home) v
      then (
        say t here (num v ∷ lit " is already in bucket " ∷ nat home ∷ lit "; nothing to do." ∷ [])
              here
            ∷ [],
        t,
      )
      else (
        say t' here
              (if ltb 0 (length (bucket t home))
                then lit "Bucket "
                  ∷ nat home
                  ∷ lit " was already occupied, so "
                  ∷ num v
                  ∷ lit " is appended to its chain — now "
                  ∷ nat (length (bucket t' home))
                  ∷ lit " entries deep."
                  ∷ []
                else lit "Bucket "
                  ∷ nat home
                  ∷ lit " was free, so "
                  ∷ num v
                  ∷ lit " is stored there."
                  ∷ [])
              here
            ∷ [],
        t',
      )

  -- The `step` of the probe loop, which only open addressing gets to.
  unfoldable pub offset : ℕ → ℕ
  offset attempt = elim strategy [ linear_probing ↦ attempt | _ ↦ attempt * attempt ]

  next_probe : ℕ → List Piece
  next_probe attempt = elim strategy [
    | linear_probing ↦ lit "the next slot" ∷ []
    | _ ↦
        nat (attempt + 1)
        ∷ lit "² = "
        ∷ nat ((attempt + 1) * (attempt + 1))
        ∷ lit " slots ahead"
        ∷ []
  ]

  -- What the probe loop leaves: its steps, the table, the probed buckets, and `placed`.
  pub record Probe : Type 0 where
    pub steps : List (Step HashTableState)
    pub table : Table
    pub probed : List ℕ
    pub placed : Bool

  -- The `for` loop of open addressing, with `left` rounds to go.
  unfoldable pub probe_loop : ℤ → ℕ → ℕ → Table → List ℕ → Probe
  unfolding hash_value includes push offset next_probe
  probe_loop v zero attempt t probed = record {
    steps = [];
    table = t;
    probed = probed;
    placed = false;
  }
  probe_loop v (suc left) attempt t probed =
      let i = (hash_value v size + offset attempt) % size in
      let probed' = probed ++ i ∷ [] in
      let t' = push i v t in
      let rest = probe_loop v left (attempt + 1) t probed' in
      if includes (bucket t i) v
      then record {
        steps =
            say t probed'
              (num v ∷ lit " is already stored at bucket " ∷ nat i ∷ lit "; nothing to do." ∷ [])
              (i ∷ [])
            ∷ [];
        table = t;
        probed = probed';
        placed = true;
      }
      else if length (bucket t i) == 0
      then record {
        steps =
            say t' probed'
              (if attempt == 0
                then lit "Bucket "
                  ∷ nat i
                  ∷ lit " was free, so "
                  ∷ num v
                  ∷ lit " is stored there."
                  ∷ []
                else lit "Bucket "
                  ∷ nat i
                  ∷ lit " is free after "
                  ∷ nat attempt
                  ∷ lit " probe"
                  ∷ lit (plural attempt)
                  ∷ lit "; "
                  ∷ num v
                  ∷ lit " is stored there."
                  ∷ [])
              (i ∷ [])
            ∷ [];
        table = t';
        probed = probed';
        placed = true;
      }
      else record rest {
        steps =
            say t probed'
              (lit "Bucket "
                  ∷ nat i
                  ∷ lit " holds "
                  ∷ num (head_or (bucket t i) (pos 0))
                  ∷ lit ", so probe "
                  ∷ next_probe attempt
                ++ lit "." ∷ [])
              (i ∷ [])
            ∷ rest.steps;
      }

  refusal : ℤ → List ℕ → List Piece
  unfolding distinct
  refusal v probed = elim strategy [
    | quadratic_probing ↦
        num v
        ∷ lit " could not be placed: quadratic probing visited "
        ∷ nat (distinct probed)
        ∷ lit " distinct buckets and found none free. This is a real limitation — quadratic probing"
        ∷ lit " is only guaranteed to find a free slot when the table size is prime and the load"
        ∷ lit " factor is below 0.5."
        ∷ []
    | _ ↦ num v ∷ lit " could not be placed: the table is full." ∷ []
  ]

  unfoldable pub probe_value : ℤ → Table → Filled
  unfolding probe_loop refusal reject
  probe_value v t =
      let p = probe_loop v size 0 t [] in
      let t' = reject v p.table in
      if p.placed
      then (p.steps, p.table)
      else (p.steps ++ say t' p.probed (refusal v p.probed) p.probed ∷ [], t')

  -- One round of the loop over the values, behind the step that names the home bucket.
  unfoldable pub place : ℤ → Table → Filled
  unfolding chain_value probe_value
  place v t = elim strategy [ chaining ↦ chain_value v t | _ ↦ probe_value v t ]

  unfoldable pub fill : List ℤ → Table → Filled
  unfolding place
  fill [] t = ([], t)
  fill (v ∷ vs) t =
      let home = hash_value v size in
      let (steps, t') = place v t in
      let (rest, last) = fill vs t' in
      (
        say t (home ∷ [])
                (num v
                  ∷ lit " hashes to bucket "
                  ∷ nat home
                  ∷ lit " (|"
                  ∷ num v
                  ∷ lit "| mod "
                  ∷ nat size
                  ∷ lit ")."
                  ∷ [])
                (home ∷ [])
              ∷ steps
            ++ rest,
        last,
      )

  abbrev pub start : Table
  start = record { buckets = replicate size []; rejected = []; stored = 0 }

  abbrev pub start_step : Step HashTableState
  start_step =
      say start []
        (lit "Empty table with "
          ∷ nat size
          ∷ lit " buckets, using "
          ∷ lit (spelled strategy)
          ∷ lit "."
          ∷ [])
        []

  abbrev pub end_step : Table → Step HashTableState
  end_step t =
      let many : List Piece = lit ", " ∷ nat (length t.rejected) ∷ lit " value(s) rejected" ∷ [] in
      say t []
        (lit "Done. Load factor "
            ∷ ratio t.stored size
            ∷ (if ltb 0 (length t.rejected) then many else [])
          ++ lit "." ∷ [])
        []

  unfoldable pub run_table : List ℤ → List (Step HashTableState)
  unfolding fill
  run_table values = let (steps, t) = fill values start in start_step ∷ steps ++ end_step t ∷ []

unfoldable pub hash_table_steps : List ℤ → ℤ → CollisionStrategy → Run (List (Step HashTableState))
unfolding assert_size run_table
hash_table_steps values size strategy =
    let accepted = run_table (pos_part size) strategy values in
    let checked : Run (List (Step HashTableState)) =
      if ltb_ℤ size (pos 1) || ltb_ℤ (pos max_elements) size
      then input_error
          (lit "Table size must be an integer between 1 and " ∷ nat max_elements ∷ lit "." ∷ [])
      else done accepted in
    elim (assert_size values "Hash table input" checked) [
      | done r ↦ r
      | input_error e ↦ input_error e
    ]
