-- ===== src/Project.antt =====
-- Where a new project is put: project/ProjectPaths.cpp, with the paths of its cards
-- (card/CardPaths.cpp). Characters are classed as in the "C" locale.
pub mod Slugs
pub mod CardFiles
use holder_core.Common.{
  ℕ, zero, suc, ◌+◌, ◌/◌, ◌%◌, Bool, true, false, Option, none, some, List, [], ◌∷◌, ◌++◌,
  if◌then◌else◌, Text, text, text_eq, ltb, leb, ◌==◌, ◌&&◌, ◌||◌, not, is_empty, is_alnum, is_upper,
  contains, length, take, drop, inr, refl, inl,
}

abbrev pub is_space : ℕ → Bool
is_space c = c == 32 || (leb 9 c && leb c 13)

abbrev pub to_lower : ℕ → ℕ
to_lower c = if is_upper c then c + 32 else c

-- A dash, unless the output is empty or ends in one.
unfoldable pub dash_or : Bool → Bool → Text → Text → Text
dash_or empty prev_dash with_dash without =
    if not empty && not prev_dash then b'-' ∷ with_dash else without

-- The loop: what it appends to an output that is empty or not, and ends in a dash or not.
unfoldable pub slug_from : Bool → Bool → Text → Text
unfolding dash_or
slug_from empty prev_dash [] = []
slug_from empty prev_dash (c ∷ s) =
    let skip = slug_from empty prev_dash s in
    let dashed = slug_from false true s in
    let word = slug_from false false s in
    if ltb 127 c
    then skip
    else if is_space c
    then dash_or empty prev_dash dashed skip
    else if is_alnum c || (c == b'_' || c == b'-')
    then (if to_lower c == b'-' then dash_or empty prev_dash dashed skip else to_lower c ∷ word)
    else skip

-- `pop_back` while the last character is a dash
unfoldable pub drop_dashes : Text → Text
drop_dashes [] = []
drop_dashes (c ∷ s) =
    let rest = drop_dashes s in if is_empty rest && c == b'-' then [] else c ∷ rest

unfoldable pub slugify : Text → Text
unfolding slug_from drop_dashes
slugify input =
    let out = drop_dashes (slug_from true false input) in
    if is_empty out then text "project" else out

-- the decimal digits of a number, before what is already written; a number has fewer than the
-- number and one more
unfoldable pub digits : ℕ → ℕ → Text → Text
digits zero n written = written
digits (suc fuel) n written =
    let more = digits fuel (n / 10) ((b'0' + n % 10) ∷ written) in
    if ltb n 10 then (b'0' + n % 10) ∷ written else more

-- `base_root / name`, as a string
unfoldable pub join_path : Text → Text → Text
join_path [] name = name
join_path (c ∷ []) name = if c == b'/' then c ∷ name else c ∷ b'/' ∷ name
join_path (c ∷ d ∷ s) name = c ∷ join_path (d ∷ s) name

unfoldable pub candidate : Text → Text → ℕ → Text
unfolding join_path digits
candidate base_root slug attempt =
    join_path base_root
      (slug ++ (if ltb 1 attempt then text "-" ++ digits (attempt + 1) attempt [] else []))

-- another project's root, or on disk
unfoldable pub is_taken : List Text → (Text → Bool) → Text → Bool
unfolding contains
is_taken roots on_disk path = contains path roots || on_disk path

-- the attempts from one on, with so many left; `none` is the exception
unfoldable pub root_from : Text → Text → List Text → (Text → Bool) → ℕ → ℕ → Option Text
unfolding candidate is_taken
root_from base_root slug roots on_disk zero attempt = none
root_from base_root slug roots on_disk (suc left) attempt =
    let rest = root_from base_root slug roots on_disk left (attempt + 1) in
    if is_taken roots on_disk (candidate base_root slug attempt)
    then rest
    else some (candidate base_root slug attempt)

unfoldable pub unique_project_root : Text → Text → List Text → (Text → Bool) → Option Text
unfolding root_from
unique_project_root base_root slug roots on_disk = root_from base_root slug roots on_disk 1000 1

-- `none` is the exception for an identifier that is too short
unfoldable pub card_rel_path : Text → Option Text
card_rel_path card_id =
    if ltb (length card_id) 4
    then none
    else some (
        text "cards/"
        ++ take 2 card_id
        ++ text "/"
        ++ take 2 (drop 2 card_id)
        ++ text "/"
        ++ card_id
        ++ text ".md")

unfoldable pub card_trash_rel_path : Text → Option Text
unfolding card_rel_path
card_trash_rel_path card_id = elim (card_rel_path card_id) [
  | none ↦ none
  | some path ↦ some (text "trash/" ++ path)
]
