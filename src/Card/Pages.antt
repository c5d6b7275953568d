-- ===== src/Card/Pages.antt =====
-- The searches, pages and counts of the `cards` table (card/CardRepo.h and .cpp). A query without
-- ORDER BY gives its rows in the order of the table. Texts are compared byte by byte.
pub mod Prefix
pub mod Sound
pub mod Next
pub mod Order
pub mod Paging
use holder_core.Common.{
  Bool, true, false, Option, none, some, List, [], ◌∷◌, ◌++◌, if◌then◌else◌, Text, ◌||◌, text_eq,
  not, ◌&&◌, opt_text_eq, text_lt, take, length, text, is_empty, is_some,
}
use holder_core.Common.Int.{ℤ, pos, pos_part, leb_ℤ, ltb_ℤ, eqb_ℤ}
use holder_core.Card.{Floats, Card, is_deleted}
use holder_core.Card.Repo.{Cards, select, sort_by, update_row}
use holder_core.Card.Tag.{is_valid_tag, normalize_tag}

pub data CardScope : Type 0 where
  live trashed either : CardScope

-- a row of `card_tags`
pub record TagRow : Type 0 where
  pub project_id : Text
  pub card_id : Text
  pub tag : Text

pub data CardPageOrder : Type 0 where
  card_id_asc updated_desc : CardPageOrder

pub data CardPageParent : Type 0 where
  any roots : CardPageParent
  children_of : Text → CardPageParent

pub record CardPageCursor : Type 0 where
  pub card_id : Text
  pub updated_at : Option ℤ

pub record CardPageQuery : Type 0 where
  pub parent : CardPageParent
  pub tag : Option Text
  pub order : CardPageOrder
  pub cursor : Option CardPageCursor

-- the `invalid_argument` exceptions
pub data PageError : Type 0 where
  limit_not_positive empty_parent empty_cursor cursor_without_time invalid_tag : PageError
  missing_before_card_id : PageError

pub data Page (Rows : Type 0) : Type 0 where
  rejected : PageError → Page Rows
  page : Rows → Page Rows

-- `card_id >= ? AND card_id < (? || '~') AND substr(card_id, 1, length(?)) = ?`
unfoldable pub matches_prefix : Text → Text → Bool
unfolding text_lt text_eq
matches_prefix prefix id =
    not (text_lt id prefix)
    && (text_lt id (prefix ++ text "~") && text_eq (take (length prefix) id) prefix)

module _ (F : Floats) where
  open F use {Double}

  -- the clause that `deletion_scope_clause` adds
  pub in_scope : CardScope → Card Double → Bool
  in_scope live c = not (is_deleted c)
  in_scope trashed c = is_deleted c
  in_scope either c = true

  -- the first row, if there is one
  abbrev pub first_row : Cards F → Option (Card Double)
  first_row [] = none
  first_row (c ∷ cs) = some c

  unfoldable pub find_by_id : Cards F → Text → Text → CardScope → Option (Card Double)
  unfolding select in_scope
  find_by_id repo project_id card_id scope = first_row (
      select F
        (λ c. text_eq c.project_id project_id && (text_eq c.card_id card_id && in_scope scope c))
        repo)

  pub id_less : Card Double → Card Double → Bool
  unfolding text_lt
  id_less a b = text_lt a.card_id b.card_id

  unfoldable pub find_by_id_prefix : Cards F → Text → Text → CardScope → ℤ → Cards F
  unfolding select sort_by in_scope matches_prefix id_less
  find_by_id_prefix repo project_id prefix scope limit =
      if leb_ℤ limit (pos 0)
      then []
      else take (pos_part limit) (
          sort_by F id_less (
            select F
              (λ c.
                text_eq c.project_id project_id
                && (matches_prefix prefix c.card_id && in_scope scope c))
              repo))

  unfoldable pub find_by_exact_title : Cards F → Text → Text → CardScope → ℤ → Cards F
  unfolding select in_scope
  find_by_exact_title repo project_id title scope limit =
      if leb_ℤ limit (pos 0)
      then []
      else take (pos_part limit) (
          select F
            (λ c. text_eq c.project_id project_id && (text_eq c.title title && in_scope scope c))
            repo)

  -- the cards with a row of `card_tags` for the project and the tag, one for each row
  pub tagged_cards : List TagRow → Cards F → Text → Text → Cards F
  unfolding select text_eq
  tagged_cards [] repo project_id tag = []
  tagged_cards (t ∷ ts) repo project_id tag =
      let rest = tagged_cards ts repo project_id tag in
      if text_eq t.project_id project_id && text_eq t.tag tag
      then select F (λ c. text_eq c.card_id t.card_id) repo ++ rest
      else rest

  -- FROM
  unfoldable pub page_source : List TagRow → Cards F → Text → Option Text → Cards F
  unfolding tagged_cards normalize_tag
  page_source tags repo project_id none = repo
  page_source tags repo project_id (some tag) =
      tagged_cards tags repo project_id (normalize_tag tag)

  pub has_parent : CardPageParent → Card Double → Bool
  unfolding opt_text_eq
  has_parent any c = true
  has_parent roots c = opt_text_eq c.parent_card_id none
  has_parent (children_of id) c = opt_text_eq c.parent_card_id (some id)

  -- `c.updated_at < ?5 OR (c.updated_at = ?5 AND c.card_id < ?4)`; a missing time compares as NULL
  abbrev pub older : Option ℤ → Text → Card Double → Bool
  older none id c = false
  older (some t) id c = ltb_ℤ c.updated_at t || (eqb_ℤ c.updated_at t && text_lt c.card_id id)

  pub behind_cursor : CardPageOrder → Option CardPageCursor → Card Double → Bool
  unfolding text_lt
  behind_cursor order none c = true
  behind_cursor card_id_asc (some cursor) c = text_lt cursor.card_id c.card_id
  behind_cursor updated_desc (some cursor) c = older cursor.updated_at cursor.card_id c

  pub page_less : CardPageOrder → Card Double → Card Double → Bool
  unfolding text_lt
  page_less card_id_asc a b = text_lt a.card_id b.card_id
  page_less updated_desc a b =
      ltb_ℤ b.updated_at a.updated_at
      || (eqb_ℤ a.updated_at b.updated_at && text_lt b.card_id a.card_id)

  -- WHERE
  pub on_page : Text → CardPageQuery → Card Double → Bool
  unfolding has_parent behind_cursor text_eq
  on_page project_id query c =
      text_eq c.project_id project_id
      && (not (is_deleted c)
          && (has_parent query.parent c && behind_cursor query.order query.cursor c))

  -- the tests before the query, in their order
  abbrev pub bad_cursor : CardPageOrder → CardPageCursor → Option PageError
  bad_cursor card_id_asc cursor = if is_empty cursor.card_id then some empty_cursor else none
  bad_cursor updated_desc cursor =
      if is_empty cursor.card_id
      then some empty_cursor
      else if not (is_some cursor.updated_at)
      then some cursor_without_time
      else none

  abbrev pub bad_tag : Option Text → Option PageError
  bad_tag none = none
  bad_tag (some tag) = if not (is_valid_tag tag) then some invalid_tag else none

  abbrev pub bad_parent : CardPageParent → Option PageError
  bad_parent any = none
  bad_parent roots = none
  bad_parent (children_of id) = if is_empty id then some empty_parent else none

  abbrev pub or_else : Option PageError → Option PageError → Option PageError
  or_else none e = e
  or_else (some e) later = some e

  pub refusal : CardPageQuery → ℤ → Option PageError
  unfolding is_valid_tag
  refusal query limit = or_else (if leb_ℤ limit (pos 0) then some limit_not_positive else none) (
      or_else (bad_parent query.parent) (
        or_else (elim query.cursor [ none ↦ none | some cursor ↦ bad_cursor query.order cursor ])
          (bad_tag query.tag)))

  pub page_rows : List TagRow → Cards F → Text → CardPageQuery → ℤ → Cards F
  unfolding select sort_by page_less on_page page_source
  page_rows tags repo project_id query limit = take (pos_part limit) (
      sort_by F (page_less query.order)
        (select F (on_page project_id query) (page_source tags repo project_id query.tag)))

  unfoldable pub list_collection_page :
      List TagRow → Cards F → Text → CardPageQuery → ℤ → Page (Cards F)
  unfolding refusal page_rows
  list_collection_page tags repo project_id query limit = elim (refusal query limit) [
    | some e ↦ rejected e
    | none ↦ page (page_rows tags repo project_id query limit)
  ]

  -- `CardPageQuery query;`
  abbrev pub first_page : CardPageOrder → CardPageQuery
  first_page order = record { parent = any; tag = none; order = order; cursor = none }

  -- an empty cursor is none
  abbrev pub after_query : Option Text → CardPageQuery
  after_query none = first_page card_id_asc
  after_query (some id) =
      if is_empty id then first_page card_id_asc else record (first_page card_id_asc) {
        cursor = some (record { card_id = id; updated_at = none });
      }

  unfoldable pub list_page_by_card_id :
      List TagRow → Cards F → Text → Option Text → ℤ → Page (Cards F)
  unfolding list_collection_page
  list_page_by_card_id tags repo project_id after limit =
      list_collection_page tags repo project_id (after_query after) limit

  -- the cursor of `list_recent_page`
  abbrev pub before_cursor : Option ℤ → Option Text → Page (Option CardPageCursor)
  before_cursor none id = page none
  before_cursor (some t) none = rejected missing_before_card_id
  before_cursor (some t) (some id) =
      if is_empty id
      then rejected missing_before_card_id
      else page (some (record { card_id = id; updated_at = some t }))

  unfoldable pub list_recent_page :
      List TagRow → Cards F → Text → Option ℤ → Option Text → ℤ → Page (Cards F)
  unfolding list_collection_page
  list_recent_page tags repo project_id before_updated_at before_card_id limit =
      elim (before_cursor before_updated_at before_card_id) [
        | rejected e ↦ rejected e
        | page cursor ↦
            list_collection_page tags repo project_id
              (record (first_page updated_desc) { cursor = cursor }) limit
      ]

  unfoldable pub count_all_not_deleted : Cards F → Text → ℤ
  unfolding select text_eq
  count_all_not_deleted repo project_id =
      pos (length (select F (λ c. text_eq c.project_id project_id && not (is_deleted c)) repo))

  -- the live cards of a scope
  pub live_children : Cards F → Text → Option Text → Cards F
  unfolding select text_eq opt_text_eq
  live_children repo project_id parent =
      select F
        (λ c.
          text_eq c.project_id project_id
          && (opt_text_eq c.parent_card_id parent && not (is_deleted c)))
        repo

  unfoldable pub count_roots_not_deleted : Cards F → Text → ℤ
  unfolding live_children
  count_roots_not_deleted repo project_id = pos (length (live_children repo project_id none))

  unfoldable pub count_children_not_deleted : Cards F → Text → Text → ℤ
  unfolding live_children
  count_children_not_deleted repo project_id parent =
      pos (length (live_children repo project_id (some parent)))

  -- MAX(sort_key), or the default where there is no row
  pub max_key : Double → Cards F → Double
  max_key default [] = default
  max_key default (c ∷ []) = c.sort_key
  max_key default (c ∷ d ∷ cs) =
      let rest = max_key default (d ∷ cs) in if F.lt rest c.sort_key then c.sort_key else rest

  -- COALESCE(MAX(sort_key), -1.0) + 1.0
  unfoldable pub next_sort_key : Cards F → Text → Option Text → Double
  unfolding live_children max_key
  next_sort_key repo project_id parent =
      F.add (max_key (F.sub (F.of_count 0) (F.of_count 1)) (live_children repo project_id parent))
        (F.of_count 1)

  -- UPDATE of every column but the ID, the project and the time of creation
  unfoldable pub restore_snapshot : Cards F → Card Double → Cards F
  unfolding update_row
  restore_snapshot repo card =
      update_row F
        (λ c. record c {
          title = card.title;
          parent_card_id = card.parent_card_id;
          sort_key = card.sort_key;
          updated_at = card.updated_at;
          deleted_at = card.deleted_at;
          rel_path = card.rel_path;
        })
        card.card_id repo
