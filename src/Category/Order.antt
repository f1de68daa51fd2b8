-- ===== src/Category/Order.antt =====
-- `switchRank` (src/store/category/category.service.ts) on the list of the siblings.
use text.Mathlib.TextEquality.{IsScalar-prop}
use native.Mathlib.Nat.{ℕ_set}
use open_api.Prelude.{
  ℤ, String, ◌≡◌, inl, inr, refl, some, map, ok, arith, UniqueBy, IsStrict, Result-cases,
}
use open_api.Schema.{CategoryGoods, Db}
use open_api.Prisma.{Prisma}
use open_api.Ranking.{neighbour, exchange}
use open_api.Ranking.Exchange.{IsRanked, Moved, neighbour-Moved}
use open_api.Category.{ranked, messages, is_child, find_category, siblings, switch_rank}

pub ranked-IsRanked : IsRanked ranked
ranked-IsRanked = record {
  set = hlevel (IsScalar-prop, ℕ_set);
  key_kept = λ k r. refl;
  rank_set = λ k r. refl;
}

pub is_child_kept :
    (store_id pid : String) (k : ℤ) (c : CategoryGoods)
    → is_child store_id pid (record c { rank = k }) ≡ is_child store_id pid c
unfolding is_child
is_child_kept store_id pid k c = refl

module _ (prisma : Prisma) where
  open prisma use {Table, rows}

  -- A granted move is the exchange with the chosen neighbour.
  switch_rank_lem :
      (cid type : String) (db : Db Table) (category : CategoryGoods)
      → (switch_rank prisma cid type db).0 ≡ ok tt
      → find_category prisma cid db ≡ some category
      → (other : CategoryGoods) × (neighbour ranked
            (messages category)
            cid
            type
            (siblings prisma category db)
          ≡ ok other)
        × ((switch_rank prisma cid type db).1 ≡ record db {
          category_goods = exchange ranked prisma cid category other db.category_goods;
        })
  unfolding switch_rank
  switch_rank_lem cid type db category h e =
      elim (Result-cases
        (neighbour ranked (messages category) cid type (siblings prisma category db))) [
          | inl (error, refused) ↦ absurd (ground arith)
          | inr (other, chosen) ↦ (other, chosen, ground arith)
        ]

  -- Where the siblings of a category have different ranks, a granted move exchanges it with the
  -- one before it (up) or the one after it (down) in the list of the siblings by rank, and the rest
  -- of that list stays as it was.
  pub switch_rank-Moved :
      (cid type : String) (db : Db Table) (category : CategoryGoods)
      → (switch_rank prisma cid type db).0 ≡ ok tt
      → find_category prisma cid db ≡ some category
      → UniqueBy (λ c. c.category_id) (rows db.category_goods)
      → IsStrict (map (λ c. c.rank) (siblings prisma category db))
      → Moved ranked ranked-IsRanked prisma
          (is_child category.store_id category.pid)
          (is_child_kept category.store_id category.pid)
          cid
          type
          db.category_goods
          (switch_rank prisma cid type db).1.category_goods
  unfolding siblings find_category
  switch_rank-Moved cid type db category h e u strict =
      let (other, chosen, state) = switch_rank_lem cid type db category h e in
      rw state (
        neighbour-Moved ranked ranked-IsRanked prisma (is_child category.store_id category.pid)
          (is_child_kept category.store_id category.pid) (messages category) cid type
          db.category_goods category other chosen e u strict)
