-- ===== src/Tests/Mutation.antt =====
-- A card change from "old" to "new", interrupted, recovered and rolled back.
use holder_core.Common.{
  ◌≡◌, refl, true, Option, none, some, List, [], ◌∷◌, if◌then◌else◌, Text, text, text_eq,
  text_eq_refl, arith, false, opt_text_eq, inl, subst, text_eq_sound, Option-cases, inr,
}
use holder_core.Card.Mutation.{
  found, missing, thrown, git_failure, Place, project_file, git_index, SavedState, World, done, put,
  place_eq, Lookup,
}
use holder_core.Card.Mutation.Journal.{construct, begin, take_staged, preserve_unrelated_index}
use holder_core.Card.Mutation.Saves.{IsGit}
use holder_core.Tests.Toy.{
  toy, get, bytes, main, commit, tip_of, head_of, open_bytes, write_saved, parse_saved, remove,
  Index, without,
}
use holder_core.Card.Mutation.Crash.{
  Kept, Interrupted-Kept, Interrupted, restarted, recovering, Interrupted-recovers, Recovered,
  wrote, began,
}
use holder_core.Card.Mutation.Places.{is_journal, is_touched, is_journaled}
use holder_core.Card.Mutation.Recovery.{
  recover_files, recover_journal, recover_in, branch_tip, same, restore_original_files,
  is_operation_commit, landed_commit, rollback,
}
use holder_core.Card.Mutation.Settles.{verdict, settled, recover_files-settled, undo}
use holder_core.Card.Mutation.Undo.{undone}
use holder_core.Card.Mutation.RollBack.{rollback_restores, moved}
use holder_core.Card.Mutation.Staged.{IsIndex, is_operation_path, preserve_unrelated_index-get}
use holder_core.Card.Mutation.Sorted.{some_eq}

toy_head_named : (r : Option Text) (h : Text × Text) → head_of r ≡ found h → tip_of r ≡ found (h.1)
unfolding head_of tip_of
toy_head_named none h e = cc
toy_head_named (some oid) h e = cc

toy_head_unborn : (r : Option Text) → head_of r ≡ missing → tip_of r ≡ missing
unfolding head_of tip_of
toy_head_unborn none e = refl
toy_head_unborn (some oid) e = cc

toy-IsGit : IsGit toy
toy-IsGit = record {
  oid_refl = text_eq_refl;
  head_named = toy_head_named;
  head_unborn = λ r name e s. toy_head_unborn r e;
}

-- one card, and something else staged
abbrev disk : Place → Option Text
disk (project_file path) = if text_eq path (text "cards/a") then some (text "old") else none
disk git_index = some (bytes ((text "notes", text "draft") ∷ []))
disk p = none

abbrev at_head : World toy
at_head = record {
  disk = disk;
  repository = found (some (text "c0"));
  git_directory = true;
  writes_left = 10;
  torn = some (text "ne");
}

abbrev paths : List Text
paths = text "cards/a" ∷ []

abbrev changes : List (Text × Option Text)
changes = (text "cards/a", some (text "new")) ∷ []

abbrev saved : SavedState Text
saved = record {
  version = 2;
  files =
      record { key = text "cards/a"; before = some (text "old"); after = some (some (text "new")) }
      ∷ [];
  head = some (text "c0");
  index = some (bytes ((text "notes", text "draft") ∷ []));
  reference = some main;
}

saved_is_constructed : construct toy paths changes at_head ≡ (done saved, at_head)
unfolding construct text_eq get bytes open_bytes remove commit tip_of head_of write_saved
    parse_saved
saved_is_constructed = refl

saved-packs : parse_saved (write_saved saved) ≡ some (saved, [])
unfolding text_eq get bytes open_bytes remove commit tip_of head_of write_saved parse_saved
saved-packs = refl

saved_unpacks : toy.from_msgpack (toy.to_msgpack saved) ≡ some saved
unfolding text_eq bytes write_saved parse_saved
saved_unpacks = refl

-- Begun; a torn write of the card; started again to recover, and killed in the first write of
-- that; and started once more.
abbrev begun : World toy
begun = (begin toy saved at_head).1

abbrev torn_card : World toy
torn_card = record begun {
  disk = put begun.disk (project_file (text "cards/a")) (some (text "ne"));
}

abbrev killed_again : World toy
killed_again = (recover_files toy (record torn_card { writes_left = 0; torn = some (text "ol") })).1

abbrev restarted_twice : World toy
restarted_twice = record killed_again { writes_left = 9; torn = none }

interrupted : Interrupted toy saved at_head restarted_twice
unfolding begin is_touched is_journaled place_eq text_eq bytes open_bytes write_saved parse_saved
interrupted = restarted 9 none (
    recovering (
      restarted 0 (some (text "ol"))
        (wrote (project_file (text "cards/a")) (some (text "ne")) refl refl began)))

killed_again_torn : killed_again.disk (project_file (text "cards/a")) ≡ some (text "ol")
unfolding begin recover_files recover_journal recover_in branch_tip same restore_original_files
    place_eq text_eq bytes open_bytes write_saved parse_saved tip_of
killed_again_torn = refl

Interrupted-Kept_example : Kept toy saved at_head (some (text "c0")) restarted_twice
Interrupted-Kept_example =
    Interrupted-Kept (some (text "c0")) paths changes at_head restarted_twice toy-IsGit
      saved_unpacks refl saved_is_constructed interrupted

Interrupted-recovers_example :
    (w' : World toy) × Recovered toy saved at_head restarted_twice w'
    × (w'.repository ≡ found (some (text "c0")))
    × ((p : Place)
        → is_journal p ≡ false
        → place_eq git_index p ≡ false
        → w'.disk p ≡ at_head.disk p)
Interrupted-recovers_example =
    Interrupted-recovers (some (text "c0")) paths changes at_head restarted_twice toy-IsGit
      saved_unpacks refl saved_is_constructed interrupted (omega arith)

restarted_twice_ends : (recover_files toy restarted_twice).0 ≡ done tt
unfolding begin recover_files recover_journal recover_in branch_tip same restore_original_files
    place_eq text_eq bytes open_bytes write_saved parse_saved tip_of
restarted_twice_ends = refl

-- A recovery that is killed while it writes the index, which is left with bytes that are no index:
-- the next recovery throws.
abbrev torn_index : World toy
torn_index = (recover_files toy (record torn_card { writes_left = 1; torn = some (9 ∷ []) })).1

torn_index_throws :
    (recover_files toy (record torn_index { writes_left = 9; torn = none })).0 ≡ thrown git_failure
unfolding begin recover_files recover_journal recover_in branch_tip same restore_original_files
    place_eq text_eq bytes open_bytes write_saved parse_saved tip_of
torn_index_throws = refl

-- Somebody else committed after the change was interrupted: c9 does not hold its bytes.
abbrev overtaken : World toy
overtaken = record begun {
  disk = put begun.disk (project_file (text "cards/a")) (some (text "new"));
  repository = found (some (text "c9"));
}

recover_files-settled_example :
    ((recover_files toy overtaken).1.disk (project_file (text "cards/a")) ≡ some (text "old"))
    × ((recover_files toy overtaken).1.repository ≡ found (some (text "c9")))
unfolding verdict settled undone place_eq begin branch_tip same landed_commit text_eq opt_text_eq
    bytes open_bytes write_saved parse_saved tip_of commit
recover_files-settled_example =
    recover_files-settled paths changes at_head at_head overtaken (some (text "c0"))
      (some (text "c9")) saved undo (text "cards/a") toy-IsGit saved_unpacks refl
      saved_is_constructed refl refl (omega arith) refl

-- The change has committed c1 when a later step fails.
abbrev committed : World toy
committed = record begun {
  disk = put begun.disk (project_file (text "cards/a")) (some (text "new"));
  repository = found (some (text "c1"));
}

rollback_restores_example :
    (w' : World toy) × (rollback toy saved committed ≡ (done tt, w'))
    × (w'.repository ≡ found (some (text "c0")))
    × (w'.disk (project_file (text "cards/a")) ≡ some (text "old"))
unfolding is_touched is_journaled place_eq text_eq begin bytes open_bytes write_saved
    is_operation_commit commit same branch_tip tip_of
rollback_restores_example =
    rollback_restores saved paths changes at_head at_head committed (some (text "c0"))
      (some (text "c1")) (some (text "c0")) (project_file (text "cards/a")) toy-IsGit refl
      saved_is_constructed refl (moved (text "c1") main refl refl refl refl refl) (omega arith)
      (inl refl)

get_path : (from : Index) (p blob path : Text) → get from path ≡ some (p, blob) → p ≡ path
unfolding get
get_path [] p blob path e = cc
get_path ((q, other) ∷ from) p blob path e =
    ground (arith, text_eq_sound q path, get_path from p blob path)

get-add_self :
    (from to to' : Index) (entry : Text × Text) (path other : Text)
    → get from path ≡ some entry
    → Path (Option Index) (some (entry ∷ to)) (some to')
    → get to' other ≡ (if text_eq path other then some entry else get to other)
unfolding get
get-add_self from to to' (p, blob) path other e a =
    let same_path = get_path from p blob path e in
    subst (λ x. get x other ≡ (if text_eq path other then some (p, blob) else get to other))
      (some_eq a) (rw same_path)

get-without :
    (i : Index) (path other : Text)
    → get (without i path) other ≡ (if text_eq path other then none else get i other)
unfolding get without
get-without [] path other = ground arith
get-without ((q, blob) ∷ i) path other = ground (
  arith,
  get-without i path other,
  text_eq_sound q path,
  text_eq_sound path other,
  text_eq_refl other,
  text_eq_sound q other,
)

found_eq : {A : Type 0} {a b : A} → Path (Lookup A) (found a) (found b) → a ≡ b
found_eq h = cc

get-removed :
    (i i' : Index) (path other : Text)
    → remove i path ≡ found i'
    → get i' other ≡ (if text_eq path other then none else get i other)
unfolding remove
get-removed i i' path other e = elim (Option-cases (get i path)) [
  | inl n ↦ absurd (cc (rw (n, remove) at e))
  | inr (entry, n) ↦ rw (← found_eq (rw (n, remove) at e)) (get-without i path other)
]

not_removed : (i : Index) (path : Text) → remove i path ≡ missing → get i path ≡ none
unfolding remove
not_removed i path e = elim (Option-cases (get i path)) [
  | inl n ↦ n
  | inr (entry, n) ↦ absurd (cc (rw (n, remove) at e))
]

toy-IsIndex : IsIndex toy
toy-IsIndex = record {
  get-add = get-add_self;
  get-remove = get-removed;
  remove_missing = not_removed;
}

-- Behind the commit the index has the new card; before it, a draft was staged.
abbrev staged : World toy
staged = record committed {
  disk = put committed.disk git_index (some (bytes ((text "cards/a", text "new") ∷ [])));
}

abbrev both : Index
both = (text "cards/a", text "new") ∷ (text "notes", text "draft") ∷ []

preserve_unrelated_index-get_example :
    (w' : World toy) × (preserve_unrelated_index toy saved staged ≡ (done tt, w'))
    × (open_bytes (w'.disk git_index) ≡ some both)
    × (get both (text "notes") ≡ some (text "notes", text "draft"))
unfolding place_eq text_eq begin bytes open_bytes get take_staged is_operation_path write_saved
preserve_unrelated_index-get_example =
    preserve_unrelated_index-get toy-IsIndex (some (text "c1")) saved staged
      ((text "cards/a", text "new") ∷ []) ((text "notes", text "draft") ∷ []) both (text "notes")
      refl refl refl refl refl (omega arith)
