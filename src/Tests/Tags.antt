-- ===== src/Tests/Tags.antt =====
-- Runs of the tag line editor, and its theorems at concrete inputs.
use holder_core.Common.{
  text_eq, ◌≡◌, refl, text, [], ◌∷◌, List, Text, some, none, true, false, arith, ◌≢◌, is_empty,
  contains, ℕ, All,
}
use holder_core.Card.Tag.{is_valid_tag, normalize_tag}
use holder_core.Card.Tag.Line.{
  parse_pure_tag_line, join_tag_line, read_tags, erase_first, split_trailing_whitespace,
  last_line_tags, upsert_trailing_tag_line, remove_from_trailing_tag_line, changed,
  tags_on_trailing_line, last_line_start,
}
use holder_core.Card.Tag.Word.{IsTagWord}
use holder_core.Card.Tag.Extract.{
  Event, text_at, enter_span, leave_span, extract_tags, extract_tag_occurrences,
}
use holder_core.Card.Tag.Extract.Words.{Distinct, extract_tags-IsTagWord}
use holder_core.Card.Tag.Line.Tokens.{parse_pure_tag_line-join_tag_line, read_tags_fuel}
use holder_core.Card.Tag.Line.Edits.{upsert-tags, upsert_idem, with_tag}
use holder_core.Card.Tag.Line.Removal.{Reports, remove-Reports, remove-tags, remove-upsert}

upsert_new : upsert_trailing_tag_line (text "Hello\n") (text "todo") ≡ text "Hello\n\n#todo\n"
unfolding upsert_trailing_tag_line is_valid_tag normalize_tag
upsert_new = refl

upsert_more :
    upsert_trailing_tag_line (text "Hi\n\n #A  #b\n\n") (text "c") ≡ text "Hi\n\n#a #b #c\n\n"
unfolding upsert_trailing_tag_line is_valid_tag normalize_tag
upsert_more = refl

remove_last : remove_from_trailing_tag_line (text "Hi\n\n#a\n") (text "a") ≡ changed (text "Hi\n")
unfolding remove_from_trailing_tag_line is_valid_tag normalize_tag
remove_last = refl

abbrev todo_later : List Text
todo_later = text "todo" ∷ text "later" ∷ []

todo-IsTagWord : IsTagWord (text "todo")
unfolding is_valid_tag normalize_tag
todo-IsTagWord = record { valid = refl; normal = refl }

later-IsTagWord : IsTagWord (text "later")
unfolding is_valid_tag normalize_tag
later-IsTagWord = record { valid = refl; normal = refl }

parse_pure_tag_line-join_tag_line_example :
    parse_pure_tag_line (join_tag_line todo_later) ≡ some todo_later
parse_pure_tag_line-join_tag_line_example =
    parse_pure_tag_line-join_tag_line todo_later (λ e. cc) (todo-IsTagWord, (later-IsTagWord, tt))

read_tags_fuel_example : read_tags 7 (text "#a #b") [] ≡ read_tags 6 (text "#a #b") []
read_tags_fuel_example = read_tags_fuel 7 6 (text "#a #b") [] (omega arith) (omega arith)

upsert-tags_example :
    tags_on_trailing_line (upsert_trailing_tag_line (text "Hi\n\n#later\n") (text "todo"))
    ≡ with_tag (text "todo") (tags_on_trailing_line (text "Hi\n\n#later\n"))
upsert-tags_example = upsert-tags (text "Hi\n\n#later\n") (text "todo") todo-IsTagWord

upsert_idem_example :
    upsert_trailing_tag_line (upsert_trailing_tag_line (text "Hi\n") (text "todo")) (text "todo")
    ≡ upsert_trailing_tag_line (text "Hi\n") (text "todo")
upsert_idem_example = upsert_idem (text "Hi\n") (text "todo") todo-IsTagWord

remove-Reports_example :
    Reports
      (text "Hi\n\n#todo\n")
      (text "todo")
      (tags_on_trailing_line (text "Hi\n\n#todo\n"))
      (remove_from_trailing_tag_line (text "Hi\n\n#todo\n") (text "todo"))
remove-Reports_example = remove-Reports (text "Hi\n\n#todo\n") (text "todo")

both_tags : tags_on_trailing_line (text "Hi\n\n#todo #later\n") ≡ todo_later
unfolding tags_on_trailing_line is_valid_tag normalize_tag
both_tags = refl

holds_todo : contains (text "todo") todo_later ≡ true
unfolding contains
holds_todo = refl

cons-ne-nil : (x : Text) (xs : List Text) → x ∷ xs ≢ []
cons-ne-nil x xs e = cc

more_than_todo : erase_first (text "todo") todo_later ≢ []
unfolding erase_first text_eq
more_than_todo = cons-ne-nil (text "later") []

hi-content : is_empty (split_trailing_whitespace (text "Hi\n")).content ≡ false
unfolding split_trailing_whitespace
hi-content = refl

hi-no_tags : last_line_tags (split_trailing_whitespace (text "Hi\n")).content ≡ none
unfolding split_trailing_whitespace last_line_tags parse_pure_tag_line last_line_start
hi-no_tags = refl

remove-tags_example :
    tags_on_trailing_line
      (remove_from_trailing_tag_line (text "Hi\n\n#todo #later\n") (text "todo")).new_body
    ≡ erase_first (text "todo") (tags_on_trailing_line (text "Hi\n\n#todo #later\n"))
remove-tags_example =
    remove-tags (text "Hi\n\n#todo #later\n") (text "todo") (rw both_tags holds_todo)
      (rw both_tags more_than_todo)

remove-upsert_example :
    remove_from_trailing_tag_line
      (upsert_trailing_tag_line (text "Hi\n") (text "todo"))
      (text "todo")
    ≡ changed (text "Hi\n")
remove-upsert_example =
    remove-upsert (text "Hi\n") (text "todo") todo-IsTagWord hi-content hi-no_tags

-- a body in one text, and then a span of code
abbrev two_texts : ℕ → Text → List Event
two_texts address body =
    text_at address body ∷ enter_span true ∷ text_at 0 (text "#code") ∷ leave_span true ∷ []

extract_some :
    extract_tags two_texts 100 (text "#ToDo: a#b (#x/y) #fff #todo") ≡ text "todo" ∷ text "x/y" ∷ []
unfolding extract_tags
extract_some = refl

occurrences_some :
    extract_tag_occurrences two_texts 100 (text "#a .#A")
    ≡ record { tag = text "a"; byte_start = 0; byte_end = 2 }
      ∷ record { tag = text "a"; byte_start = 4; byte_end = 6 }
      ∷ []
unfolding extract_tag_occurrences
occurrences_some = refl

extract_tags-IsTagWord_example :
    All IsTagWord (extract_tags two_texts 100 (text "#ToDo: a#b (#x/y) #fff #todo"))
    × Distinct (extract_tags two_texts 100 (text "#ToDo: a#b (#x/y) #fff #todo"))
extract_tags-IsTagWord_example =
    extract_tags-IsTagWord two_texts 100 (text "#ToDo: a#b (#x/y) #fff #todo")
