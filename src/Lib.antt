-- ===== src/Lib.antt =====
-- Developer Toolbox (dev-box): a verification library for the TypeScript code of the web workbench.
--
-- The program is a single-page workbench of independent tools; each tool is a module of pure
-- functions under apps/web/src/modules, and a page that calls them. This library models the modules:
--
-- Prelude.antt     shared names, Boolean tests, lists over the native numbers, integers, predicates
-- Text.antt        JavaScript strings as lists of code units: ===, trim, split, parseInt, template
--                  literals
-- Dict.antt        a plain object used as a table: own properties, in insertion order
-- Git.antt         modules/learning/git. Git/Model: model.ts (`RepositoryState`, `GitCommand`,
--                  getHeadCommitId). Git/Ancestry: isAncestor of reducer.ts. Git/Commands:
--                  reduceRepository, one function for each case of its switch. `Outcome` is the
--                  returned union; `stuck` is a loop that ran out of fuel and is proved not to occur
--                  on valid repositories. Git/Valid: the invariant. Git/Sessions: sequences of commands.
-- Algorithms.antt  modules/learning/algorithms. A generator is the list of the steps that it yields.
--                  Algorithms/Steps: contracts.ts and assertSize. Algorithms/Heap: the max-heap of
--                  structures.ts (Heap/Extract: heapExtractSteps and siftDown), Algorithms/Bst: its
--                  search trees, and Algorithms/HashTable: its hash tables. Algorithms/Sorting:
--                  bubbleSortSteps of sorting.ts.
-- Api.antt         modules/api. Api/Policy: requestPolicy.ts, with the session's set of confirmed hosts
--                  passed as a list; `Url` has the fields of the browser's URL object that it reads.
-- Command.antt     modules/command. Command/Segments: the tokens and `segment` of tokenize.ts.
--                  Command/Tokenize: its `tokenize`; a position is the text before it, nearest first,
--                  and the text left.
-- Cron.antt        modules/cron/cron.ts. Cron/Model: fields, tables and errors. Cron/Parse: parseCron,
--                  parseField, expandTerm and readValue. Cron/Describe: the descriptions and notes.
--                  Cron/Schedule: nextOccurrences and its `matches`; an instant is milliseconds since
--                  1970, and `Calendar` stands for the methods of the browser's Date.
-- Diff.antt        modules/diff/diff.ts. Diff/Script: `EditOp` and coalesce, and what a script does.
--                  Diff/Myers: myersDiff, diffMiddle and backtrack; a diagonal is its index in the
--                  array, and a cell is one more than the x it holds. Diff/Lines: splitLines and
--                  the loop of diffText over the script, for any way to normalize a line.
--                  Diff/Hunks: buildHunks and makeHunk. Diff/Words: annotateWordChanges, tokenizeWords
--                  and isSimilar. Diff/Compare: diffText. Diff/Unified: toUnifiedDiff.
--
-- Fuel: isAncestor visits a commit of the table once, so the table's size plus one is enough; the
-- rebase loop follows first parents, whose numbers fall in a valid repository, so nextCommitNum is.
-- Sifting up from an index has the index for fuel, since a parent's is smaller; sifting down has the
-- heap's size, since the index grows below it. Each round of a tokenizer's loop takes at least one unit,
-- so the length of the input is enough. A cron range has at most its last value plus one values; the
-- projection's bound is the program's own. The Myers search has one round more than both lists have
-- lines for fuel, like its loop, and is proved to end before.
--
-- Conventions. `Number(text)` is exact, and no integer where the double is an infinity (a double's
-- rounding is left out). Texts are lists of code units. toLowerCase is modelled as far as a comparison
-- with ASCII goes: on the ASCII capitals, which are all that a host name of the browser's URL holds, and
-- on the Kelvin sign; the diff takes it as a parameter. A command of the Git sandbox is one of the
-- union's, so the default case of reduceRepository is left out. A number of the visualizers is an integer (fractions and
-- NaN are left out). An explanation is its template literal in pieces, not yet put together. An object
-- used as a table has its own properties only: names that a plain object inherits are left out.
--
-- Not modelled: React pages, browser storage, HTTP and WebSocket clients, third-party parsers, and the
-- Go server. The other tools of the workbench are not modelled.
pub mod Prelude
pub mod Text
pub mod Dict
pub mod Git
pub mod Algorithms
pub mod Api
pub mod Command
pub mod Cron
pub mod Diff
