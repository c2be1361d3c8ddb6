-- ===== src/Command/Tests.antt =====
-- Runs of the command tokenizer, and its theorems at concrete command lines.
use dev_box.Prelude.{◌≡◌, refl, true, false, List, [], ◌∷◌, ◌++◌, length}
use dev_box.Text.{Text, codes, is_space, starts_with, trim_start}
use dev_box.Text.Split.{until}
use dev_box.Command.Tokenize.{
  tokenize, next_token, push_word, push_redirection, match_prefix, read_word, read_unit,
  read_single, no_word, breaks, operators, redirections, tokenize_loop, is_assignment,
  is_descriptor,
}
use dev_box.Command.Tokenize.Words.{read_word-breaks}
use dev_box.Command.Tokenize.Layout.Forward.{Covers, tokenize-Covers}
use dev_box.Command.Segments.{Token, word, operator, segment, segment_lem, read_segments, met_in}

abbrev listed : Token
listed = record {
  kind = word;
  raw = codes "ls";
  value = codes "ls";
  quoted = false;
  start = 0;
  end = 2;
}

abbrev piped : Token
piped = record {
  kind = operator;
  raw = codes "|";
  value = codes "|";
  quoted = false;
  start = 3;
  end = 4;
}

abbrev counted : Token
counted = record {
  kind = word;
  raw = codes "wc";
  value = codes "wc";
  quoted = false;
  start = 5;
  end = 7;
}

abbrev line : List Token
line = listed ∷ piped ∷ counted ∷ []

segment_lem_example : read_segments (segment line) ≡ met_in line
segment_lem_example = segment_lem line

abbrev typed : Text
typed = codes "make 2>'err log' | tee out # go"

abbrev raws : List Token → List Text
raws [] = []
raws (t ∷ tokens) = t.raw ∷ raws tokens

typed-raws :
    raws (tokenize typed)
    ≡ codes "make"
      ∷ codes "2>"
      ∷ codes "'err log'"
      ∷ codes "|"
      ∷ codes "tee"
      ∷ codes "out"
      ∷ codes "# go"
      ∷ []
unfolding tokenize tokenize_loop next_token push_word push_redirection match_prefix operators
    redirections read_word read_unit read_single until breaks is_space starts_with trim_start
    is_assignment is_descriptor
typed-raws = refl

tokenize-Covers_example : Covers 0 (tokenize typed) typed
tokenize-Covers_example = tokenize-Covers typed

read_word-breaks_example :
    let s = codes "a'b c'd|e" in
    let w = read_word (length s) (no_word s) s in (w.raw ++ w.rest ≡ s) × (breaks w.rest ≡ true)
read_word-breaks_example = read_word-breaks (codes "a'b c'd|e")

-- A shell reads the word `file2` here.
split_word : raws (tokenize (codes "file2>out")) ≡ codes "file" ∷ codes "2>" ∷ codes "out" ∷ []
unfolding tokenize tokenize_loop next_token push_word push_redirection match_prefix operators
    redirections read_word read_unit read_single until breaks is_space starts_with trim_start
    is_assignment is_descriptor
split_word = refl
