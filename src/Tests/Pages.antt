-- ===== src/Tests/Pages.antt =====
-- The pages and searches of the cards table at concrete inputs.
use holder_core.Common.{
  ◌≡◌, refl, text, [], ◌∷◌, some, none, false, text_eq, take, length, ◌+◌, ◌++◌, arith,
}
use holder_core.Common.Int.{pos}
use holder_core.Card.Pages.{
  CardPageQuery, page, roots, card_id_asc, updated_desc, matches_prefix, list_collection_page,
  page_source,
}
use holder_core.Card.Pages.Order.{Unlike}
use holder_core.Card.Pages.Paging.{behind, list_collection_page_next}
use holder_core.Card.Repo.{Cards}
use holder_core.Card.Pages.Prefix.{matches_prefix-starts}
use holder_core.Tests.Cards.{fixed, card, cards}

matches_prefix-starts_example :
    matches_prefix (text "0a1") (text "0a1b-22")
    ≡ text_eq (take (length (text "0a1")) (text "0a1b-22")) (text "0a1")
matches_prefix-starts_example = matches_prefix-starts (text "0a1") (text "0a1b-22") refl

-- An ID with the prefix that goes on with '~' is not found.
tilde_is_lost : matches_prefix (text "0a") (text "0a~1") ≡ false
unfolding matches_prefix
tilde_is_lost = refl

abbrev root_query : CardPageQuery
root_query = record {
  parent = roots;
  tag = none;
  order = card_id_asc;
  cursor = some (record { card_id = text "a"; updated_at = none });
}

second_page :
    list_collection_page fixed [] cards (text "p") root_query (pos 5)
    ≡ page (card (text "d") none 2000 ∷ [])
unfolding list_collection_page
second_page = refl

-- the first root, and the pages behind it
abbrev roots_query : CardPageQuery
roots_query = record { parent = roots; tag = none; order = updated_desc; cursor = none }

first_root :
    list_collection_page fixed [] cards (text "p") roots_query (pos 1)
    ≡ page (card (text "d") none 2000 ∷ [])
unfolding list_collection_page
first_root = refl

different_cards : Unlike fixed cards
unfolding text_eq
different_cards = ((refl, (refl, (refl, tt))), ((refl, (refl, tt)), ((refl, tt), (tt, tt))))

list_collection_page_next_example :
    (rest : Cards fixed) × (list_collection_page fixed [] cards
        (text "p")
        (behind fixed roots_query (card (text "d") none 2000))
        (pos 2)
      ≡ page rest)
    × (list_collection_page fixed [] cards (text "p") roots_query (pos (1 + 2))
        ≡ page (([] ++ card (text "d") none 2000 ∷ []) ++ rest))
unfolding page_source
list_collection_page_next_example =
    list_collection_page_next fixed [] cards (text "p") roots_query 1 2 []
      (card (text "d") none 2000) different_cards first_root refl (omega arith)
