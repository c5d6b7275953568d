-- ===== src/Tests/Toy.antt =====
-- A small repository for the tests of card changes: commits by name, an index as a list, and a
-- codec that writes each text behind its length.
use holder_core.Common.{
  ℕ, zero, suc, false, Option, none, some, List, [], ◌∷◌, ◌++◌, if◌then◌else◌, Text, text, text_eq,
  length, take, drop,
}
use holder_core.Card.Mutation.{Lookup, found, missing, JournalFile, SavedState, Commit, Git}

abbrev pub Index : Type 0
Index = List (Text × Text)

unfoldable pub get : Index → Text → Option (Text × Text)
unfolding text_eq
get [] path = none
get ((p, blob) ∷ i) path = let rest = get i path in if text_eq p path then some (p, blob) else rest

unfoldable pub without : Index → Text → Index
unfolding text_eq
without [] path = []
without ((p, blob) ∷ i) path =
    let rest = without i path in if text_eq p path then rest else (p, blob) ∷ rest

-- a decoder of the front of a text
abbrev Parser : Type 0 → Type 0
Parser A = Text → Option (A × Text)

abbrev and_then : {A B : Type 0} → Parser A → (A → Parser B) → Parser B
and_then p f t = elim (p t) [ none ↦ none | some (a, rest) ↦ f a rest ]

abbrev give : {A : Type 0} → A → Parser A
give a t = some (a, t)

number : Parser ℕ
number [] = none
number (n ∷ t) = some (n, t)

parse_text : Parser Text
parse_text [] = none
parse_text (n ∷ t) = some (take n t, drop n t)

write_text : Text → Text
write_text t = length t ∷ t

write_option : Option Text → Text
unfolding write_text
write_option none = 0 ∷ []
write_option (some t) = 1 ∷ write_text t

parse_option : Parser (Option Text)
unfolding parse_text
parse_option [] = none
parse_option (zero ∷ t) = some (none, t)
parse_option (suc n ∷ t) = and_then parse_text (λ s. give (some s)) t

write_after : Option (Option Text) → Text
unfolding write_option
write_after none = 0 ∷ []
write_after (some o) = 1 ∷ write_option o

parse_after : Parser (Option (Option Text))
unfolding parse_option
parse_after [] = none
parse_after (zero ∷ t) = some (none, t)
parse_after (suc n ∷ t) = and_then parse_option (λ s. give (some s)) t

write_files : List JournalFile → Text
unfolding write_text write_option write_after
write_files [] = []
write_files (f ∷ fs) =
    write_text f.key ++ write_option f.before ++ write_after f.after ++ write_files fs

parse_files : ℕ → Parser (List JournalFile)
unfolding parse_text parse_option parse_after
parse_files zero = give []
parse_files (suc n) = and_then parse_text λ key. and_then parse_option λ before.
    and_then parse_after λ after.
      and_then (parse_files n)
        λ fs. give (record { key = key; before = before; after = after } ∷ fs)

unfoldable pub write_saved : SavedState Text → Text
unfolding write_option write_files
write_saved s =
    (s.version ∷ [])
    ++ write_option s.head
    ++ write_option s.index
    ++ write_option s.reference
    ++ (length s.files ∷ [])
    ++ write_files s.files

unfoldable pub parse_saved : Parser (SavedState Text)
unfolding number parse_option parse_files
parse_saved = and_then number λ version. and_then parse_option λ head.
    and_then parse_option λ index. and_then parse_option λ reference. and_then number λ count.
      and_then (parse_files count) λ files. give (record {
        version = version;
        files = files;
        head = head;
        index = index;
        reference = reference;
      })

write_entries : Index → Text
unfolding write_text
write_entries [] = []
write_entries ((p, blob) ∷ i) = write_text p ++ write_text blob ++ write_entries i

parse_entries : ℕ → Parser Index
unfolding parse_text
parse_entries zero = give []
parse_entries (suc n) =
    and_then parse_text
      λ p. and_then parse_text λ blob. and_then (parse_entries n) λ i. give ((p, blob) ∷ i)

-- what a parser found, without the rest
abbrev outcome : {A : Type 0} → Option (A × Text) → Option A
outcome none = none
outcome (some (a, rest)) = some a

unfoldable pub open_bytes : Option Text → Option Index
unfolding number parse_entries
open_bytes none = some []
open_bytes (some t) = outcome (and_then number parse_entries t)

unfoldable pub bytes : Index → Text
unfolding write_entries
bytes i = length i ∷ write_entries i

-- one file in the tree
abbrev holding : Text → Text → Lookup Text
holding blob path = if text_eq path (text "cards/a") then found blob else missing

abbrev pub main : Text
main = text "refs/heads/main"

-- c0 has the old card, c1 is the operation's commit on it, and c9 another one.
unfoldable pub commit : Text → Option (Commit Text Text)
unfolding text_eq
commit oid =
    if text_eq oid (text "c0")
    then some (record { parents = []; tree = some (holding (text "old")) })
    else if text_eq oid (text "c1")
    then some (record { parents = text "c0" ∷ []; tree = some (holding (text "new")) })
    else if text_eq oid (text "c9")
    then some (record { parents = text "c0" ∷ []; tree = some (holding (text "old")) })
    else none

unfoldable pub tip_of : Option Text → Lookup Text
tip_of none = missing
tip_of (some oid) = found oid

unfoldable pub head_of : Option Text → Lookup (Text × Text)
head_of none = missing
head_of (some oid) = found (main, oid)

unfoldable pub remove : Index → Text → Lookup Index
unfolding get without
remove i path = elim (get i path) [ none ↦ missing | some e ↦ found (without i path) ]

-- A repository is the commit of its only branch.
abbrev pub toy : Git
toy = record {
  Oid = Text;
  Entry = Text;
  Repo = Option Text;
  Index = Index;
  IndexEntry = Text × Text;
  oid_equal = text_eq;
  entry_id = λ e. e;
  hash_blob = λ t. t;
  commit_lookup = λ r oid. commit oid;
  name_to_id = λ r name. tip_of r;
  repository_head = head_of;
  symbolic_head = λ r. found main;
  walk = λ r tip hide. some (tip ∷ []);
  set_target = λ r name oid. some (some oid);
  delete_reference = λ r name. some none;
  index_open = open_bytes;
  index_bytes = bytes;
  index_get = get;
  index_add = λ i e. some (e ∷ i);
  index_remove = remove;
  index_entry = λ e path. (path, e);
  has_conflicts = λ i. false;
  index_clear = λ i. [];
  index_read_tree = λ r i h. some ((text "cards/a", text "old") ∷ []);
  to_msgpack = write_saved;
  from_msgpack = λ t. outcome (parse_saved t);
}
