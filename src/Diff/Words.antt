-- ===== src/Diff/Words.antt =====
-- `annotateWordChanges`, `tokenizeWords` and `isSimilar` of apps/web/src/modules/diff/diff.ts. A Map
-- from characters to numbers is a table; a character is one code unit or a surrogate pair.
pub mod Joined
use dev_box.Prelude.{
  ℕ, zero, suc, ◌+◌, ◌-◌, ◌*◌, Bool, true, false, not, ◌&&◌, ◌||◌, List, [], ◌∷◌, ◌++◌,
  if◌then◌else◌, Option, none, some, leb, ltb, ◌==◌, length, take, drop, max,
}
use dev_box.Text.{Text, is_space}
use dev_box.Dict.{lookup}
use dev_box.Dict as Dict
use dev_box.Diff.Script.{ChangeKind, equal, insert, delete, EditOp}
use dev_box.Diff.Lines.{DiffLine, WordPart}
use dev_box.Diff.Myers.{myers_diff}

-- A unit before the words behind it: it joins the first of them where both are spaces or neither is.
unfoldable pub push_unit : ℕ → List Text → List Text
unfolding is_space
push_unit c [] = (c ∷ []) ∷ []
push_unit c ([] ∷ words) = (c ∷ []) ∷ words
push_unit c ((d ∷ word) ∷ words) =
    if is_space c
    then if is_space d then (c ∷ d ∷ word) ∷ words else (c ∷ []) ∷ (d ∷ word) ∷ words
    else if is_space d
    then (c ∷ []) ∷ (d ∷ word) ∷ words
    else (c ∷ d ∷ word) ∷ words

-- text.match(/\s+|[^\s]+/g) ?? []
unfoldable pub tokenize_words : Text → List Text
unfolding push_unit
tokenize_words [] = []
tokenize_words (c ∷ s) = push_unit c (tokenize_words s)

-- words.join('')
abbrev pub join : List Text → Text
join [] = []
join (word ∷ words) = word ++ join words

abbrev pub part_of : ChangeKind → Text → WordPart
part_of kind text = record { kind = kind; text = text }

-- Both indexes behind an operation.
abbrev pub indexes_behind : ChangeKind → (count li ri : ℕ) → ℕ × ℕ
indexes_behind equal n li ri = (li + n, ri + n)
indexes_behind delete n li ri = (li + n, ri)
indexes_behind insert n li ri = (li, ri + n)

-- The segment of an operation, put before those behind it.
abbrev pub put_parts :
    ChangeKind → Text → Text → List WordPart × List WordPart → List WordPart × List WordPart
put_parts equal l r (lefts, rights) = (part_of equal l ∷ lefts, part_of equal l ∷ rights)
put_parts delete l r (lefts, rights) = (part_of delete l ∷ lefts, rights)
put_parts insert l r (lefts, rights) = (lefts, part_of insert r ∷ rights)

module _ (left right : List Text) where
  -- The `for` loop over the script of two lists of words: the segments of both lines.
  unfoldable pub word_parts : List EditOp → (li ri : ℕ) → List WordPart × List WordPart
  word_parts [] li ri = ([], [])
  word_parts (op ∷ ops) li ri =
      let (li', ri') = indexes_behind op.kind op.count li ri in
      put_parts op.kind (join (take op.count (drop li left))) (join (take op.count (drop ri right)))
        (word_parts ops li' ri')

-- The characters that a `for` loop over a string goes through.
unfoldable pub characters : Text → List Text
characters [] = []
characters (c ∷ []) = (c ∷ []) ∷ []
characters (c ∷ d ∷ s) =
    let pair = characters s in
    let single = characters (d ∷ s) in
    if (leb 55296 c && leb c 56319) && (leb 56320 d && leb d 57343)
    then (c ∷ d ∷ []) ∷ pair
    else (c ∷ []) ∷ single

-- counts.get(ch) ?? 0
abbrev pub count_of : Option ℕ → ℕ
count_of none = 0
count_of (some n) = n

unfoldable pub count_characters : List Text → List (Text × ℕ) → List (Text × ℕ)
unfolding Dict.insert lookup
count_characters [] counts = counts
count_characters (ch ∷ chars) counts =
    count_characters chars (Dict.insert ch (count_of (lookup ch counts) + 1) counts)

unfoldable pub shared_characters : List Text → List (Text × ℕ) → (shared : ℕ) → ℕ
unfolding Dict.insert lookup
shared_characters [] counts so_far = so_far
shared_characters (ch ∷ chars) counts so_far =
    let remaining = count_of (lookup ch counts) in
    let taken = shared_characters chars (Dict.insert ch (remaining - 1) counts) (so_far + 1) in
    let missing = shared_characters chars counts so_far in
    if ltb 0 remaining then taken else missing

-- The quotient is at least one half when twice the shared characters are at least the length.
unfoldable pub is_similar : Text → Text → Bool
unfolding characters count_characters shared_characters
is_similar [] b = false
is_similar (c ∷ a) [] = false
is_similar (c ∷ a) (d ∷ b) =
    let longer = max (length (c ∷ a)) (length (d ∷ b)) in
    let common =
      shared_characters (characters (d ∷ b)) (count_characters (characters (c ∷ a)) []) 0 in
    if ltb 1000 longer then false else leb longer (2 * common)

abbrev pub with_words : DiffLine → List WordPart → DiffLine
with_words line parts = record {
  kind = line.kind;
  left_number = line.left_number;
  right_number = line.right_number;
  text = line.text;
  words = some parts;
}

abbrev pub is_delete : ChangeKind → Bool
is_delete delete = true
is_delete equal = false
is_delete insert = false

abbrev pub is_insert : ChangeKind → Bool
is_insert insert = true
is_insert equal = false
is_insert delete = false

-- lines[i + 2]?.kind === 'insert'
abbrev pub begins_insert : List DiffLine → Bool
begins_insert [] = false
begins_insert (line ∷ _) = is_insert line.kind

-- A deleted line and the inserted one behind it are paired.
unfoldable pub is_pair : DiffLine → DiffLine → List DiffLine → Bool
unfolding is_similar
is_pair left right lines =
    (is_delete left.kind && is_insert right.kind)
    && (not (begins_insert lines) && is_similar left.text right.text)

-- The segments of a pair.
unfoldable pub pair_parts : (left right : Text) → List WordPart × List WordPart
unfolding tokenize_words myers_diff word_parts
pair_parts left right =
    let left_words = tokenize_words left in
    let right_words = tokenize_words right in
    word_parts left_words right_words (myers_diff left_words right_words) 0 0

-- The loop over the lines; a step behind a pair skips its second line.
unfoldable pub annotate_word_changes : List DiffLine → List DiffLine
unfolding is_pair pair_parts
annotate_word_changes [] = []
annotate_word_changes (line ∷ []) = line ∷ []
annotate_word_changes (left ∷ right ∷ lines) =
    let (lefts, rights) = pair_parts left.text right.text in
    let behind = annotate_word_changes lines in
    let next = annotate_word_changes (right ∷ lines) in
    if is_pair left right lines
    then with_words left lefts ∷ with_words right rights ∷ behind
    else left ∷ next
