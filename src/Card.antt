-- ===== src/Card.antt =====
-- Cards: the record of model/Card.h and, below, the parts that work on cards.
pub mod Tag
pub mod Repo
pub mod Result
pub mod Hierarchy
pub mod Block
pub mod Placement
pub mod Pages
pub mod Lifecycle
pub mod Mutation
pub mod Reference
pub mod Repair
use holder_core.Common.{
  ℕ, zero, suc, ◌+◌, ◌≡◌, refl, inl, inr, Bool, true, false, Option, none, some, List, [], ◌∷◌,
  ◌++◌, arith, if◌then◌else◌, Text,
}
use holder_core.Common.Int.{ℤ}

-- `double`, which the language does not define here: its comparisons and arithmetic.
pub record Floats : Type 1 where
  pub Double : Type 0
  pub lt : Double → Double → Bool
  pub eq : Double → Double → Bool
  pub le : Double → Double → Bool
  pub is_finite : Double → Bool
  pub add : Double → Double → Double
  pub sub : Double → Double → Double
  pub mul : Double → Double → Double
  pub div : Double → Double → Double
  pub of_count : ℕ → Double

-- What IEEE 754 says of the comparisons. A NaN is not finite, and is not equal to itself.
pub record IsOrdered (F : Floats) : Type 0 where
  pub finite_eq : (a : F.Double) → F.is_finite a ≡ true → F.eq a a ≡ true
  pub le_or_lt :
      (a b : F.Double) → F.eq a a ≡ true → F.eq b b ≡ true → F.le a b ≡ false → F.lt b a ≡ true

pub record Card (D : Type 0) : Type 0 where
  pub card_id : Text
  pub project_id : Text
  pub title : Text
  pub rel_path : Text
  pub parent_card_id : Option Text
  pub sort_key : D
  pub created_at : ℤ
  pub updated_at : ℤ
  pub deleted_at : Option ℤ

abbrev pub is_deleted : {D : Type 0} → Card D → Bool
is_deleted c = elim c.deleted_at [ none ↦ false | some t ↦ true ]
