-- ===== src/Card/Pages/Order.antt =====
-- The orders of a page are strict and total on rows of different IDs, and a cursor is a row's place.
use holder_core.Common.{
  ◌≡◌, refl, true, false, Option, none, some, arith, Text, text_eq, text_lt, [], ◌∷◌, All,
}
use holder_core.Common.Int.{ℤ}
use holder_core.Card.{Floats, Card}
use holder_core.Card.Pages.{
  CardPageOrder, card_id_asc, updated_desc, CardPageCursor, page_less, behind_cursor, older,
}
use holder_core.Card.Mutation.Sorted.{text_lt_total, text_lt_trans}
use holder_core.Card.Repo.{Cards}

text_lt_asym : (a b : Text) → text_lt a b ≡ true → text_lt b a ≡ false
unfolding text_lt
text_lt_asym [] [] h = cc
text_lt_asym (x ∷ a) [] h = cc
text_lt_asym [] (y ∷ b) h = refl
text_lt_asym (x ∷ a) (y ∷ b) h = ground (arith, h, text_lt_asym a b)

text_eq_sym : (s t : Text) → text_eq s t ≡ false → text_eq t s ≡ false
unfolding text_eq
text_eq_sym [] [] h = cc
text_eq_sym (x ∷ a) [] h = refl
text_eq_sym [] (y ∷ b) h = refl
text_eq_sym (x ∷ a) (y ∷ b) h = ground (arith, h, text_eq_sym a b)

module _ (F : Floats) where
  open F use {Double}

  older_trans :
      (time : Option ℤ) (id : Text) (a c : Card Double)
      → older F time id a ≡ true
      → page_less F updated_desc a c ≡ true
      → older F time id c ≡ true
  unfolding page_less
  older_trans none id a c h k = cc
  older_trans (some t) id a c h k = ground (arith, h, k, text_lt_trans c.card_id a.card_id id)

  pub page_less_trans :
      (order : CardPageOrder) (a b c : Card Double)
      → page_less F order a b ≡ true
      → page_less F order b c ≡ true
      → page_less F order a c ≡ true
  unfolding page_less
  page_less_trans card_id_asc a b c h k = text_lt_trans a.card_id b.card_id c.card_id h k
  page_less_trans updated_desc a b c h k =
      ground (arith, h, k, text_lt_trans c.card_id b.card_id a.card_id)

  pub page_less_asym :
      (order : CardPageOrder) (a b : Card Double)
      → page_less F order a b ≡ true
      → page_less F order b a ≡ false
  unfolding page_less
  page_less_asym card_id_asc a b h = text_lt_asym a.card_id b.card_id h
  page_less_asym updated_desc a b h = ground (arith, h, text_lt_asym b.card_id a.card_id)

  pub page_less_total :
      (order : CardPageOrder) (a b : Card Double)
      → text_eq a.card_id b.card_id ≡ false
      → page_less F order a b ≡ false
      → page_less F order b a ≡ true
  unfolding page_less
  page_less_total card_id_asc a b n h = text_lt_total a.card_id b.card_id n h
  page_less_total updated_desc a b n h =
      ground (arith, n, h, text_lt_total b.card_id a.card_id, text_eq_sym a.card_id b.card_id)

  -- the place of a row
  abbrev pub cursor_at : Card Double → CardPageCursor
  cursor_at c = record { card_id = c.card_id; updated_at = some c.updated_at }

  pub behind_cursor-page_less :
      (order : CardPageOrder) (a c : Card Double)
      → behind_cursor F order (some (cursor_at a)) c ≡ page_less F order a c
  unfolding behind_cursor page_less
  behind_cursor-page_less card_id_asc a c = refl
  behind_cursor-page_less updated_desc a c = ground arith

  -- What is behind a row that is behind a cursor is behind the cursor.
  pub behind_cursor_trans :
      (order : CardPageOrder) (cursor : Option CardPageCursor) (a c : Card Double)
      → behind_cursor F order cursor a ≡ true
      → page_less F order a c ≡ true
      → behind_cursor F order cursor c ≡ true
  unfolding behind_cursor page_less
  behind_cursor_trans order none a c h k = refl
  behind_cursor_trans card_id_asc (some cursor) a c h k =
      text_lt_trans cursor.card_id a.card_id c.card_id h k
  behind_cursor_trans updated_desc (some cursor) a c h k =
      older_trans cursor.updated_at cursor.card_id a c h k

  -- no other row of the ID
  abbrev pub Apart : Text → Cards F → Type 0
  Apart id cs = All (λ (d : Card Double). text_eq d.card_id id ≡ false) cs

  -- the IDs are those of different rows
  abbrev pub Unlike : Cards F → Type 0
  Unlike [] = Unit
  Unlike (c ∷ cs) = Apart c.card_id cs × Unlike cs
