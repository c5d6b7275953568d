-- ===== src/Tests/References.antt =====
-- Identifiers, and references to cards, at concrete inputs.
use holder_core.Common.{
  ◌≡◌, refl, text, Text, [], ◌∷◌, some, none, true, arith, Bool, text_eq, contains, false,
}
use holder_core.Card.Repo.{Cards}
use holder_core.Card.Pages.{live, find_by_id_prefix, matches_prefix}
use holder_core.Card.Reference.{resolve, ambiguous_among, id_prefix, normalize_uuid_prefix}
use holder_core.Card.Reference.Answers.{IsAnswer, resolve-IsAnswer}
use holder_core.Identity.{uuid7, generate_id, is_valid_uuid}
use holder_core.Identity.Valid.{generate_id_valid}
use holder_core.Tests.Cards.{fixed, card}
use holder_core.Project.{
  slugify, is_taken, candidate, unique_project_root, card_rel_path, card_trash_rel_path,
}
use holder_core.Project.Slugs.{is_slug, slugify-is_slug, unique_project_root_free}
use holder_core.Card.Mutation.Journal.{is_recovery_path}
use holder_core.Project.CardFiles.{card_rel_path-is_recovery_path}

-- all random bytes 171
generate_id_valid_example :
    (id : Text) × (generate_id uuid7 1700000000000 (λ i. 171) ≡ some id) × (is_valid_uuid id ≡ true)
generate_id_valid_example =
    generate_id_valid uuid7 1700000000000 (λ i. 171) (λ i. omega arith) (omega arith)

generated :
    generate_id uuid7 1700000000000 (λ i. 171) ≡ some (text "018bcfe5-6800-7bab-abab-abababababab")
unfolding generate_id
generated = refl

-- two cards whose identifiers begin alike, and one titled like a prefix
abbrev shelf : Cards fixed
shelf =
    card (text "018bcfe5-6800-7bab-abab-abababababab") none 1000
    ∷ card (text "018bcfe5-6800-7bab-abab-abababababac") none 2000
    ∷ []

resolve-IsAnswer_example :
    IsAnswer fixed
      (text "p")
      (text "018BCFE5-6800")
      live
      (resolve fixed shelf (text "p") (text "018BCFE5-6800") live)
resolve-IsAnswer_example = resolve-IsAnswer fixed (text "p") (text "018BCFE5-6800") live shelf

both_begin_alike :
    resolve fixed shelf (text "p") (text "018BCFE5-6800") live
    ≡ ambiguous_among fixed shelf id_prefix
unfolding resolve is_valid_uuid normalize_uuid_prefix find_by_id_prefix matches_prefix
both_begin_alike = refl

slugify-is_slug_example : is_slug (slugify (text " My -- Project! ")) ≡ true
slugify-is_slug_example = slugify-is_slug (text " My -- Project! ")

my_project : slugify (text " My -- Project! ") ≡ text "my-project"
unfolding slugify
my_project = refl

-- the plain name is taken by a project, and the second one on disk
abbrev on_disk : Text → Bool
on_disk path = text_eq path (text "/r/a-2")

unique_project_root_free_example :
    (root : Text) × (unique_project_root (text "/r") (text "a") (text "/r/a" ∷ []) on_disk
      ≡ some root)
    × (is_taken (text "/r/a" ∷ []) on_disk root ≡ false)
unfolding is_taken candidate contains text_eq
unique_project_root_free_example =
    unique_project_root_free (text "/r") (text "a") (text "/r/a" ∷ []) on_disk 3 (omega arith)
      (omega arith) refl

card_rel_path-is_recovery_path_example :
    (live trashed : Text) × (card_rel_path (text "018bcfe5-6800-7bab-abab-abababababab")
      ≡ some live)
    × (card_trash_rel_path (text "018bcfe5-6800-7bab-abab-abababababab") ≡ some trashed)
    × (is_recovery_path live ≡ true)
    × (is_recovery_path trashed ≡ true)
unfolding is_valid_uuid
card_rel_path-is_recovery_path_example =
    card_rel_path-is_recovery_path (text "018bcfe5-6800-7bab-abab-abababababab") refl
