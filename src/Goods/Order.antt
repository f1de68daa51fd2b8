-- ===== src/Goods/Order.antt =====
-- `switchRank` (src/store/goods/goods.service.ts) on the list of a store's goods.
use text.Mathlib.TextEquality.{IsScalar-prop}
use native.Mathlib.Nat.{ℕ_set}
use open_api.Prelude.{
  ℤ, String, ◌===◌, ◌≡◌, refl, true, inl, inr, some, map, ok, arith, or_text, UniqueBy, IsStrict,
  Result-cases,
}
use open_api.Schema.{StoreGoods, Db}
use open_api.Prisma.{Prisma}
use open_api.Ranking.{neighbour, exchange}
use open_api.Ranking.Exchange.{IsRanked, Moved, neighbour-Moved}
use open_api.Goods.{
  SwitchRankGoods, ranked, messages, is_of_store, find_goods, brothers, switch_by, switch_rank,
}

pub ranked-IsRanked : IsRanked ranked
ranked-IsRanked = record {
  set = hlevel (IsScalar-prop, ℕ_set);
  key_kept = λ k r. refl;
  rank_set = λ k r. refl;
}

pub is_of_store_kept :
    (store_id : String) (k : ℤ) (g : StoreGoods)
    → is_of_store store_id (record g { rank = k }) ≡ is_of_store store_id g
unfolding is_of_store
is_of_store_kept store_id k g = refl

module _ (prisma : Prisma) where
  open prisma use {Table, rows}

  -- A granted move by a direction is the exchange with the chosen neighbour.
  switch_by_lem :
      (id type : String) (db : Db Table) (goods : StoreGoods)
      → (switch_by prisma id goods type db).0 ≡ ok tt
      → (other : StoreGoods) × (neighbour ranked (messages goods) id type (brothers prisma goods db)
          ≡ ok other)
        × ((switch_by prisma id goods type db).1
            ≡ record db { store_goods = exchange ranked prisma id goods other db.store_goods })
  unfolding switch_by
  switch_by_lem id type db goods h =
      elim (Result-cases (neighbour ranked (messages goods) id type (brothers prisma goods db))) [
        | inl (error, refused) ↦ absurd (ground arith)
        | inr (other, chosen) ↦ (other, chosen, ground arith)
      ]

  switch_rank_lem :
      (id : String) (dto : SwitchRankGoods) (db : Db Table) (goods : StoreGoods)
      → (or_text dto.target_id "" === "") ≡ true
      → find_goods prisma id db ≡ some goods
      → switch_rank prisma id dto db ≡ switch_by prisma id goods (or_text dto.type "") db
  unfolding switch_rank
  switch_rank_lem id dto db goods untargeted e = rw (e, untargeted) refl

  -- Where the goods of a store have different ranks, a granted move of one of them by a direction
  -- exchanges it with the one before it (up) or the one after it (down) in the list of the store's
  -- goods by rank, and the rest of that list stays as it was.
  pub switch_goods-Moved :
      (id : String) (dto : SwitchRankGoods) (db : Db Table) (goods : StoreGoods)
      → (or_text dto.target_id "" === "") ≡ true
      → (switch_rank prisma id dto db).0 ≡ ok tt
      → find_goods prisma id db ≡ some goods
      → UniqueBy (λ g. g.goods_id) (rows db.store_goods)
      → IsStrict (map (λ g. g.rank) (brothers prisma goods db))
      → Moved ranked ranked-IsRanked prisma
          (is_of_store goods.store_id)
          (is_of_store_kept goods.store_id)
          id
          (or_text dto.type "")
          db.store_goods
          (switch_rank prisma id dto db).1.store_goods
  unfolding brothers find_goods
  switch_goods-Moved id dto db goods untargeted h e u strict =
      let whole = switch_rank_lem id dto db goods untargeted e in
      let (other, chosen, state) =
        switch_by_lem id (or_text dto.type "") db goods (rw whole at h) in
      rw (whole, state)
        (neighbour-Moved ranked ranked-IsRanked prisma (is_of_store goods.store_id)
          (is_of_store_kept goods.store_id) (messages goods) id (or_text dto.type "") db.store_goods
          goods other chosen e u strict)
