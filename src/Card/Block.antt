-- ===== src/Card/Block.antt =====
-- New sort keys for a block of cards that is put among its new siblings: `spaced_keys` and
-- `insert_block_into` of card/CardHierarchy.cpp.
use holder_core.Common.{
  ℕ, zero, suc, ◌+◌, Option, none, some, List, [], ◌∷◌, ◌++◌, if◌then◌else◌, leb, take, not, ltb,
  Text, ◌==◌, ◌||◌, map, ◌&&◌, drop, ◌*◌, ◌-◌, min, length, get_elem?,
}
use holder_core.Common.Int.{ℤ}
use holder_core.Card.{Floats, Card}
use holder_core.Card.Repo.{Cards}
use holder_core.Card.Result.{Result, ok, err, out_of_fuel, no_sort_keys_available}
pub mod Keys
pub mod Respace
pub mod Insert
use mathlib.Core.Option

module _ (F : Floats) where
  open F use {Double}

  -- 1.0
  abbrev pub one : Double
  one = F.of_count 1

  -- the loop of `spaced_keys`: `i` keys are there, `left` are to come
  pub keys_from : Double → Double → Double → ℕ → Double → ℕ → Option (List Double)
  keys_from low high n i previous zero = some []
  keys_from low high n i previous (suc left) =
      let fraction = F.div (F.of_count (i + 1)) (F.add n one) in
      let key = F.add (F.mul low (F.sub one fraction)) (F.mul high fraction) in
      let rest = keys_from low high n (i + 1) key left in
      if not (F.is_finite key) || F.le key previous || F.le high key
      then none
      else Option.map (◌∷◌ key) rest

  -- `*left`, and 0.0 where both ends are open
  abbrev pub low_end : Option Double → Option Double → Double → Double
  low_end none none n = F.of_count 0
  low_end none (some r) n = F.sub (F.sub r n) one
  low_end (some l) right n = l

  abbrev pub high_end : Double → Option Double → Double → Double
  high_end low none n = F.add (F.add low n) one
  high_end low (some r) n = r

  unfoldable pub spaced_keys : Option Double → Option Double → ℕ → Option (List Double)
  unfolding keys_from
  spaced_keys left right count =
      let n = F.of_count count in
      let low = low_end left right n in keys_from low (high_end low right n) n 0 low count

  -- The loop that writes the new keys into destination[low, high): the cards that change, and the
  -- window afterwards. `i` is the index of the first card in the destination.
  pub write_keys : (at block_end : ℕ) → ℤ → ℕ → Cards F → List Double → Cards F × Cards F
  write_keys at block_end updated_at i [] keys = ([], [])
  write_keys at block_end updated_at i (c ∷ cs) [] = ([], c ∷ cs)
  write_keys at block_end updated_at i (c ∷ cs) (key ∷ keys) =
      let (changed, window) = write_keys at block_end updated_at (i + 1) cs keys in
      let c' = record c { sort_key = key; updated_at = updated_at } in
      if (leb at i && ltb i block_end) || not (F.eq c.sort_key key)
      then (c' ∷ changed, c' ∷ window)
      else (changed, c ∷ window)

  abbrev pub key_at : Cards F → ℕ → Option Double
  key_at cards i = Option.map (λ c. c.sort_key) (get_elem? cards i)

  -- `at > radius ? at - radius : 0`
  abbrev pub window_low : ℕ → ℕ → ℕ
  window_low at radius = if ltb radius at then at - radius else 0

  abbrev pub next_radius : ℕ → ℕ
  next_radius radius = if radius == 0 then 1 else radius * 2

  -- the window [low, high) with its new keys put back
  abbrev pub replace_window : Cards F → ℕ → ℕ → Cards F × Cards F → Cards F × Cards F
  replace_window destination low high r =
      (r.0, take low destination ++ (r.1 ++ drop high destination))

  -- `for (radius = 0;; ...)`, on fuel. The destination holds the block at [at, block_end).
  unfoldable pub respace : ℕ → Cards F → ℕ → ℕ → ℤ → ℕ → Result (Cards F × Cards F)
  respace zero destination at block_end updated_at radius = err out_of_fuel
  respace (suc fuel) destination at block_end updated_at radius =
      let low = window_low at radius in
      let high = min (length destination) (block_end + radius) in
      let left = if low == 0 then none else key_at destination (low - 1) in
      let right = if ltb high (length destination) then key_at destination high else none in
      let wider = respace fuel destination at block_end updated_at (next_radius radius) in
      elim (spaced_keys left right (high - low)) [
        | none ↦
            if low == 0 && high == length destination then err no_sort_keys_available else wider
        | some keys ↦ ok (
            replace_window destination low high
              (write_keys at block_end updated_at low (drop low (take high destination)) keys))
      ]

  -- The radius doubles, so it reaches both ends of the destination within as many rounds as the
  -- destination has cards, and two more (Block/Respace).
  unfoldable pub insert_block_into :
      Cards F → ℕ → Cards F → Option Text → ℤ → Result (Cards F × Cards F)
  unfolding respace write_keys spaced_keys
  insert_block_into destination at [] parent updated_at = ok ([], destination)
  insert_block_into destination at (b ∷ bs) parent updated_at =
      let block = map {A = Card Double} (λ c. record c { parent_card_id = parent }) (b ∷ bs) in
      let grown = take at destination ++ (block ++ drop at destination) in
      respace (length grown + 2) grown at (at + length block) updated_at 0
