-- ===== src/Project/CardFiles.antt =====
-- The paths of the files of a card, live and trashed, can be journaled.
use holder_core.Common.{
  ℕ, zero, suc, ◌+◌, ◌≡◌, refl, Bool, true, false, some, [], ◌∷◌, ◌++◌, Text, text, text_eq, ◌==◌,
  ◌&&◌, not, arith, length, take, drop, ltb, ap, ◌∙◌, append_assoc,
}
use holder_core.Identity.{chars_valid, is_valid_uuid, is_hex_digit}
use holder_core.Project.{card_rel_path, card_trash_rel_path}
use holder_core.Card.Mutation.Journal.{
  path_elements, first_with, begins_with, has_two_dots, has_dot_element, is_recovery_path,
}

-- no slash and no dot
is_plain : Text → Bool
is_plain [] = true
is_plain (c ∷ s) = (not (c == b'/') && not (c == b'.')) && is_plain s

chars_valid-is_plain : (i : ℕ) (s : Text) → chars_valid i s ≡ true → is_plain s ≡ true
unfolding chars_valid is_plain is_hex_digit
chars_valid-is_plain i [] h = refl
chars_valid-is_plain i (c ∷ s) h = ground (arith, chars_valid-is_plain (i + 1) s)

take-is_plain : (n : ℕ) (s : Text) → is_plain s ≡ true → is_plain (take n s) ≡ true
unfolding is_plain
take-is_plain zero s h = refl
take-is_plain (suc n) [] h = refl
take-is_plain (suc n) (c ∷ s) h = ground (arith, take-is_plain n s)

drop-is_plain : (n : ℕ) (s : Text) → is_plain s ≡ true → is_plain (drop n s) ≡ true
unfolding is_plain
drop-is_plain zero s h = h
drop-is_plain (suc n) [] h = refl
drop-is_plain (suc n) (c ∷ s) h = ground (arith, drop-is_plain n s)

plain_parts :
    (c : ℕ) (s : Text) → is_plain (c ∷ s) ≡ true → ((c == b'/') ≡ false) × (is_plain s ≡ true)
unfolding is_plain
plain_parts c s h = ground arith

-- Behind a plain element, the rest of the path.
path_elements_plain :
    (s t : Text) → is_plain s ≡ true → path_elements (s ++ b'/' ∷ t) ≡ s ∷ path_elements t
unfolding is_plain path_elements first_with
path_elements_plain [] t h = refl
path_elements_plain (c ∷ s) t h =
    let (c_plain, s_plain) = plain_parts c s h in rw c_plain (rw (path_elements_plain s t s_plain))

path_elements_file :
    (s : Text) → is_plain s ≡ true → path_elements (s ++ text ".md") ≡ (s ++ text ".md") ∷ []
unfolding is_plain path_elements first_with
path_elements_file [] h = refl
path_elements_file (c ∷ s) h =
    let (c_plain, s_plain) = plain_parts c s h in rw c_plain (rw (path_elements_file s s_plain))

plain_not_dot : (s : Text) → is_plain s ≡ true → text_eq s (text ".") ≡ false
unfolding is_plain text_eq
plain_not_dot [] h = refl
plain_not_dot (c ∷ s) h = ground arith

file_not_dot : (s : Text) → is_plain s ≡ true → text_eq (s ++ text ".md") (text ".") ≡ false
unfolding is_plain text_eq
file_not_dot [] h = refl
file_not_dot (c ∷ s) h = ground arith

-- Plain text and a slash bring no two dots in a row.
two_dots_plain : (s t : Text) → is_plain s ≡ true → has_two_dots (s ++ t) ≡ has_two_dots t
unfolding is_plain has_two_dots begins_with
two_dots_plain [] t h = refl
two_dots_plain (c ∷ s) t h = ground (arith, two_dots_plain s t)

-- Two directories and a file, below a directory of cards.
abbrev below : Text → Text → Text → Text
below a b id = a ++ b'/' ∷ (b ++ b'/' ∷ (id ++ text ".md"))

module _ (a b id : Text) (pa : is_plain a ≡ true) (pb : is_plain b ≡ true)
    (pid : is_plain id ≡ true) where
  below_elements : path_elements (below a b id) ≡ a ∷ b ∷ (id ++ text ".md") ∷ []
  below_elements =
      path_elements_plain a (b ++ b'/' ∷ (id ++ text ".md")) pa
      ∙ ap (◌∷◌ a)
          (path_elements_plain b (id ++ text ".md") pb ∙ ap (◌∷◌ b) (path_elements_file id pid))

  below_dots : has_dot_element (path_elements (below a b id)) ≡ false
  unfolding has_dot_element
  below_dots =
      rw below_elements
        (rw (plain_not_dot a pa) (rw (plain_not_dot b pb) (rw (file_not_dot id pid))))

  below_two_dots : has_two_dots (below a b id) ≡ false
  unfolding has_two_dots begins_with
  below_two_dots =
      two_dots_plain a (b'/' ∷ (b ++ b'/' ∷ (id ++ text ".md"))) pa
      ∙ two_dots_plain b (b'/' ∷ (id ++ text ".md")) pb
      ∙ two_dots_plain id (text ".md") pid

  below_cards :
      (is_recovery_path (text "cards/" ++ (below a b id)) ≡ true)
      × (is_recovery_path (text "trash/cards/" ++ (below a b id)) ≡ true)
  unfolding is_recovery_path begins_with has_two_dots has_dot_element path_elements first_with
      text_eq
  below_cards = (rw below_dots (rw below_two_dots), rw below_dots (rw below_two_dots))

-- The path as the source puts it together, piece by piece from the left.
pieces :
    (a b id : Text)
    → text "cards/" ++ a ++ text "/" ++ b ++ text "/" ++ id ++ text ".md"
      ≡ text "cards/" ++ below a b id
pieces a b id = simp append_assoc

valid_parts : (id : Text) → is_valid_uuid id ≡ true → (length id ≡ 36) × (is_plain id ≡ true)
unfolding is_valid_uuid
valid_parts id h = (ground (arith, h), chars_valid-is_plain 0 id (ground (arith, h)))

long_enough : (n : ℕ) → n ≡ 36 → ltb n 4 ≡ false
long_enough n h = rw h

card_rel_path_lem :
    (id : Text)
    → is_valid_uuid id ≡ true
    → card_rel_path id ≡ some (text "cards/" ++ below (take 2 id) (take 2 (drop 2 id)) id)
unfolding card_rel_path
card_rel_path_lem id h =
    rw (long_enough (length id) (valid_parts id h).0)
      (ap some (pieces (take 2 id) (take 2 (drop 2 id)) id))

card_trash_rel_path_lem :
    (id path : Text)
    → card_rel_path id ≡ some path
    → card_trash_rel_path id ≡ some (text "trash/" ++ path)
unfolding card_trash_rel_path
card_trash_rel_path_lem id path e = rw (e, card_trash_rel_path)

-- The file of a card whose ID is a valid UUID has a path, live and in the trash, and the journal
-- of card changes takes both paths: neither is absolute, leaves its directory, nor lies outside
-- cards/ and trash/cards/.
pub card_rel_path-is_recovery_path :
    (id : Text)
    → is_valid_uuid id ≡ true
    → (live trashed : Text) × (card_rel_path id ≡ some live)
      × (card_trash_rel_path id ≡ some trashed)
      × (is_recovery_path live ≡ true)
      × (is_recovery_path trashed ≡ true)
card_rel_path-is_recovery_path id h =
    let plain = (valid_parts id h).1 in
    let a = take-is_plain 2 id plain in
    let b = take-is_plain 2 (drop 2 id) (drop-is_plain 2 id plain) in
    let paths = below_cards (take 2 id) (take 2 (drop 2 id)) id a b plain in
    let live = card_rel_path_lem id h in
    (_, _, live, card_trash_rel_path_lem id _ live, paths.0, paths.1)
