-- ===== src/Card/Repo.antt =====
-- The `cards` table and the queries of card/CardRepo.cpp. A query's rows come in the order of its
-- ORDER BY, rows that tie in the order of the table. Failures of the database itself are not modelled,
-- and a project or a parent that a statement sets is in its table, as the foreign keys ask.
pub mod Updates
pub mod Parents
use holder_core.Common.{
  Bool, Option, none, some, List, [], ◌∷◌, ◌++◌, if◌then◌else◌, Text, ◌||◌, text_eq, not, ◌&&◌,
  opt_text_eq, map,
}
use holder_core.Common.Int.{ℤ, ltb_ℤ}
use holder_core.Card.{Floats, Card}

module _ (F : Floats) where
  abbrev pub Cards : Type 0
  Cards = List (Card F.Double)

  -- WHERE
  unfoldable pub select : (Card F.Double → Bool) → Cards → Cards
  select p [] = []
  select p (c ∷ cs) = let rest = select p cs in if p c then c ∷ rest else rest

  -- ORDER BY: every row before the rows that it does not follow
  unfoldable pub insert_by : (Card F.Double → Card F.Double → Bool) → Card F.Double → Cards → Cards
  insert_by less c [] = c ∷ []
  insert_by less c (d ∷ ds) =
      let later = insert_by less c ds in if less d c then d ∷ later else c ∷ d ∷ ds

  unfoldable pub sort_by : (Card F.Double → Card F.Double → Bool) → Cards → Cards
  unfolding insert_by
  sort_by less [] = []
  sort_by less (c ∷ cs) = insert_by less c (sort_by less cs)

  -- `sort_key ASC, updated_at DESC`
  pub row_less : Card F.Double → Card F.Double → Bool
  row_less a b =
      F.lt a.sort_key b.sort_key
      || (not (F.lt b.sort_key a.sort_key) && ltb_ℤ b.updated_at a.updated_at)

  unfoldable pub get : Cards → Text → Option (Card F.Double)
  get [] id = none
  get (c ∷ cs) id = let rest = get cs id in if text_eq c.card_id id then some c else rest

  unfoldable pub list_roots : Cards → Text → Cards
  unfolding row_less select sort_by
  list_roots repo project_id =
      sort_by row_less
        (select (λ c. text_eq c.project_id project_id && opt_text_eq c.parent_card_id none) repo)

  unfoldable pub list_children : Cards → Text → Text → Cards
  unfolding row_less select sort_by
  list_children repo project_id parent_card_id = sort_by row_less (
      select
        (λ c. text_eq c.project_id project_id && opt_text_eq c.parent_card_id (some parent_card_id))
        repo)

  unfoldable pub list_all : Cards → Text → Cards
  unfolding row_less select sort_by
  list_all repo project_id = sort_by row_less (select (λ c. text_eq c.project_id project_id) repo)

  -- INSERT; `card_id` is the primary key
  unfoldable pub create : Cards → Card F.Double → Option Cards
  unfolding get
  create repo card = elim (get repo card.card_id) [
    | none ↦ some (repo ++ card ∷ [])
    | some old ↦ none
  ]

  -- UPDATE ... WHERE card_id = ?
  unfoldable pub update_row : (Card F.Double → Card F.Double) → Text → Cards → Cards
  update_row f id [] = []
  update_row f id (c ∷ cs) = (if text_eq c.card_id id then f c else c) ∷ update_row f id cs

  unfoldable pub update_title : Cards → Text → Text → ℤ → Cards
  unfolding update_row
  update_title repo id title updated_at =
      update_row (λ c. record c { title = title; updated_at = updated_at }) id repo

  unfoldable pub touch_updated : Cards → Text → ℤ → Cards
  unfolding update_row
  touch_updated repo id updated_at = update_row (λ c. record c { updated_at = updated_at }) id repo

  unfoldable pub soft_delete : Cards → Text → ℤ → ℤ → Cards
  unfolding update_row
  soft_delete repo id deleted_at updated_at =
      update_row (λ c. record c { deleted_at = some deleted_at; updated_at = updated_at }) id repo

  unfoldable pub restore : Cards → Text → ℤ → Cards
  unfolding update_row
  restore repo id updated_at =
      update_row (λ c. record c { deleted_at = none; updated_at = updated_at }) id repo

  unfoldable pub move : Cards → Text → Option Text → F.Double → ℤ → Cards
  unfolding update_row
  move repo id parent_card_id sort_key updated_at =
      update_row
        (λ c. record c {
          parent_card_id = parent_card_id;
          sort_key = sort_key;
          updated_at = updated_at;
        })
        id repo

  -- the key to the parent: ON DELETE SET NULL
  pub forget_parent : Text → Card F.Double → Card F.Double
  unfolding opt_text_eq
  forget_parent id c =
      if opt_text_eq c.parent_card_id (some id) then record c { parent_card_id = none } else c

  -- DELETE
  unfoldable pub remove : Cards → Text → Cards
  unfolding select forget_parent
  remove repo id = map (forget_parent id) (select (λ c. not (text_eq c.card_id id)) repo)
