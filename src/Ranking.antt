-- ===== src/Ranking.antt =====
-- The exchange of two neighbours in a ranking, which src/store/category/category.service.ts and
-- src/store/goods/goods.service.ts have in common: the rows are listed by their rank, and two of
-- them exchange their ranks.
mod Sorted
mod Lists
mod Neighbours
pub mod Exchange
use open_api.Prelude.{
  ℕ, zero, suc, ◌+◌, ℤ, Bool, true, false, String, ◌===◌, Option, none, some, List, [], ◌∷◌,
  is_some, if◌then◌else◌, ◌-◌, ◌==◌, ◌&&◌, length, Result, ok, err, bad_request, plain_error,
}
use open_api.Prisma.{Prisma}

-- A table of ranked rows: the column of the key, and that of the rank.
pub record Ranked : Type 1 where
  pub Row : Type 0
  pub key : Row → String
  pub rank : Row → ℤ
  pub set_rank : ℤ → Row → Row

-- The texts of the exceptions.
pub record Messages : Type 0 where
  pub no_brothers : String
  pub only_one : String
  pub no_place : String
  pub is_first : String
  pub is_last : String

-- Reading a field of a place outside is a TypeError.
abbrev item_or_fail : {R : Type 0} → Option R → Result R
item_or_fail none = err (plain_error "Cannot read properties of undefined")
item_or_fail (some r) = ok r

module _ (kind : Ranked) where
  open kind use {Row, key, rank, set_rank}

  -- The last position of the key, counted from the given one (`forEach` with an assignment).
  unfoldable pub index_from : ℕ → String → List Row → Option ℕ
  index_from i id [] = none
  index_from i id (r ∷ rs) =
      let later = index_from (i + 1) id rs in
      if is_some later then later else if key r === id then some i else none

  -- `brothers[i]`
  unfoldable pub item_at : List Row → ℕ → Option Row
  item_at [] i = none
  item_at (r ∷ rs) zero = some r
  item_at (r ∷ rs) (suc i) = item_at rs i

  -- `if (type === 'down')`, past the last place.
  unfoldable pub below : Messages → String → List Row → ℕ → Result Row
  below texts type brothers index =
      if index == length brothers - 1 && type === "down"
      then err (bad_request texts.is_last)
      else if type === "down"
      then item_or_fail (item_at brothers (index + 1))
      else err (bad_request "未知的操作")

  unfoldable pub beside : Messages → String → List Row → ℕ → Result Row
  unfolding below
  beside texts type brothers index =
      if index == 0 && type === "up"
      then err (bad_request texts.is_first)
      else if type === "up"
      then item_or_fail (item_at brothers (index - 1))
      else below texts type brothers index

  unfoldable pub at_index : Messages → String → List Row → Option ℕ → Result Row
  unfolding beside
  at_index texts type brothers none = err (bad_request texts.no_place)
  at_index texts type brothers (some index) = beside texts type brothers index

  -- The brother with whom the row of an id changes places.
  unfoldable pub neighbour : Messages → String → String → List Row → Result Row
  unfolding at_index
  neighbour texts id type brothers =
      if length brothers == 0
      then err (bad_request texts.no_brothers)
      else if length brothers == 1
      then err (bad_request texts.only_one)
      else at_index texts type brothers (index_from 0 id brothers)

  module _ (prisma : Prisma) where
    open prisma use {Table, update}

    -- The transaction of two updates: the row of the id takes the rank of the other, and the other
    -- that of the first.
    unfoldable pub exchange : String → Row → Row → Table Row → Table Row
    exchange id row other t =
        update (λ r. key r === key other) (set_rank (rank row))
          (update (λ r. key r === id) (set_rank (rank other)) t)
