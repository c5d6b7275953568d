-- ===== src/Lib.antt =====
-- Verification of holder-core, the library that keeps projects of Markdown cards in git repositories
-- with a SQLite database beside them.
--
-- The program. A card (src/model/Card.h) is a Markdown file with a row in the `cards` table
-- (src/card/CardRepo.cpp), which says where it stands: its project, its parent and its sort key among
-- its siblings. src/card/CardHierarchy.cpp walks up from a card, decides whether a parent may be given
-- to it, and finds sort keys for cards that are inserted among others.
-- src/card/CardPlacementResolver.cpp turns a wish such as "before that card" into a parent and keys; it
-- reads the table and inserts through the hierarchy. A card's body carries its tags, and
-- src/card/TagLineEditor.cpp is the one place that edits a body: it keeps the tag line at its end, with
-- the predicates on words of src/card/TagExtractor.cpp. Each project has a row in `project_sync_state`
-- (src/project/ProjectSyncRepo.cpp) that remembers the pushes and pulls, and
-- src/sync/ProjectSyncPolicy.cpp decides from it when the next one may start, and
-- src/sync/ProjectSyncOperation.cpp runs one and records it. A change of several card files with one
-- commit goes through the journal of src/card/CardMutation.cpp, which rolls it back if it fails and
-- settles it after a crash.
--
-- Where it is modelled.
-- - Common: texts as lists of bytes (Common/Texts), lists over the native numbers, and the integers of
--   `long long` and `int` (Common/Int), which are not bounded here: times and counters stay far from the
--   ends of their types.
-- - Card: the row. `double` is a parameter, the record `Floats` of its operations; what IEEE 754 says of
--   the comparisons is the record `IsOrdered`, which only the theorem that needs it takes.
-- - Card/Repo: the table as a list of rows with one function per statement. A statement that fails in
--   SQLite itself is not modelled.
-- - Card/Result: the exceptions of the placement, as values. `out_of_fuel` is none of them; it marks a
--   loop of the model whose fuel ran out, and the theorems on ending exclude it.
-- - Card/Hierarchy: `card_tree_less`, `siblings`, `reachable_card_parent`, `validate_card_parent`. The
--   walk marks a new card in every step, so one step more than the table has rows is enough fuel.
-- - Card/Block: `spaced_keys` and `insert_block_into`. The window around the block doubles in every
--   round, so it covers the whole list within as many rounds as the list has cards, and two more.
-- - Card/Placement, Card/Placement/Resolve: `CardPlacementResolver::resolve`, a function per case of its
--   switch. Resolve/Refused has the condition of each error, and Resolve/Exact that it is exact. The
--   position for Left and Right is counted among the siblings with the card, so that it lies within the list without the card rests on
--   IDs that are unique, which is not part of the model; `out_of_fuel` is not excluded there.
-- - Card/Tag, Card/Tag/Line: the words that are tags, and the whole of TagLineEditor.cpp. A byte is a
--   number below 256, and `std::tolower` and `std::isalpha` are those of the "C" locale. A round of
--   `parse_pure_tag_line` reads a byte at least, so the length of the line and one more is enough fuel.
-- - Card/Tag/Extract: the scan of a card's text for tags (src/card/TagExtractor.cpp). The calls that md4c
--   makes are a parameter. The searches with `std::regex` are the matches from left to right, read byte
--   by byte, with the classes of the "C" locale.
-- - Sync/State, Sync/Policy: the sync row with its retry counters, and the two decisions.
-- - Card/Lifecycle: where the children of a trashed card go and where a restored card goes
--   (`promoted_card_children`, `restored_card_placement` of src/card/CardHierarchy.cpp). In a list in
--   order, `std::lower_bound` counts the cards before the anchor.
-- - Card/Repair: `plan_hierarchy_repair` (src/card/CardHierarchy.cpp). The walk up keeps the ancestors
--   that it met, among which the anchor is found; the source walks the same ancestors again. Maps are
--   lists in the order of their keys. The walk has the fuel of Card/Hierarchy.
-- - Card/Pages: the searches, the pages and the counts of the table. `LIMIT` takes that many rows.
--   Pages/Order is on the order of rows, Pages/Next on what is behind a row, Pages/Paging on pages in a
--   row.
-- - Sync/Operation, Sync/Run: `run_project_sync` (src/sync/ProjectSyncOperation.cpp), which locks a
--   project, pulls, repairs, pushes, and records each phase. What it calls of src/git, src/index,
--   src/card/CardStore.cpp and src/sync/PullConflictResolution.cpp is the record `World`.
-- - Card/Mutation: the world of a card change: the files it works on, by place (`Place`), the
--   repository, and how many writes the process survives; a write that it does not survive leaves any
--   bytes (`torn`). libgit2 and the MessagePack codec are the record `Git`; what is relied on is
--   `IsGit`, `IsIndex`, and that the journal at hand reads back as it was written. Every fault of
--   libgit2 is one `git_failure`. Mutation/Journal has the constructor, `begin`, `finish`, `pending` and
--   `preserve_unrelated_index`, and Mutation/Recovery has `rollback`, `recover_files` and what they
--   call. A path counts as not normal if an element is a single dot; with two dots in a row it is
--   refused in any case. The proofs: Frame on what is never written, Restores on what comes back,
--   Phases and Crash on interruption (a process that starts again opens the index anew, `index_path`,
--   and libgit2 may refuse it), Undo and Settles on recovery, RollBack, Staged on the index.
-- - Identity: UUIDs of both versions, their validity, and the names of the schemes. Random bytes and the
--   clock are arguments; a clock before 1970 is left out.
-- - Card/Reference: `CardReferenceResolver::resolve` on the searches of Card/Pages.
-- - Project: `slugify`, `unique_project_root` (src/project/ProjectPaths.cpp) and the paths of cards
--   (src/card/CardPaths.cpp). What is on disk is a function on paths. The thousand attempts are counted
--   down; the digits of an attempt take fewer rounds than the attempt's number and one more.
-- - Tests: runs on concrete inputs, and each theorem applied to one.
--
-- Not modelled: SQLite, libgit2, libsodium and md4c, which the code calls; the file system, but for the
-- files of a card change; the C interface, which copies values in and out; and for now the card store
-- above the table and the journal, privacy, resources, history, search and the AI threads.
pub mod Common
pub mod Card
pub mod Sync
pub mod Identity
pub mod Project
mod Tests
