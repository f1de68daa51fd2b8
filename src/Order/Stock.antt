-- ===== src/Order/Stock.antt =====
-- The stock that `accept` of src/order/order.service.ts takes from the goods' versions.
use open_api.Prelude.{
  pos, ◌+ℤ◌, ◌-ℤ◌, ◌≤ℤ◌, int_laws, String, ◌===◌, ◌≡◌, refl, ap, ◌∙◌, some, List, [], ◌∷◌, ok,
  arith, find, find_sound, All-find, UniqueBy, UniqueBy-select, find-select, any, any-find,
  find-map_where_key, find-map_where_other, Option-cases, inl, inr, Bool-cases, select, eq_iff,
}
use open_api.Schema.{UserOrder, UserOrderInfo, StoreGoodsVersion, Db}
use open_api.Prisma.{Prisma}
use open_api.Order.{accept, find_at, check_stock, stock_of, reduce_stock, stage_create}
use open_api.Order.Moves.{accept-state, accept-found, check_stock-state}
use open_api.Order.Counts.{
  taken, has_version, stock_of-find, Covered, check_stock_sound, taken-none, taken_unique,
}

module _ (prisma : Prisma) where
  open prisma use {Table, rows, find_first, find_many, find_many-rows, update, rows-update}

  find-reduce_stock :
      (id : String) (items : List UserOrderInfo) (t : Table StoreGoodsVersion)
      (v : StoreGoodsVersion)
      → find (has_version id) (rows t) ≡ some v
      → find (has_version id) (rows (reduce_stock prisma items t))
        ≡ some (record v { count = v.count -ℤ taken id items })
  unfolding reduce_stock
  find-reduce_stock id [] t v e =
      let same : v.count -ℤ pos 0 ≡ v.count = omega int_laws in rw (same) e
  find-reduce_stock id (i ∷ is) t v e = elim (Bool-cases (i.goods_version_id === id)) [
    | inl hit ↦
        let same = (eq_iff i.goods_version_id id).0 hit in
        let step : find (has_version id) (
              rows (
                update (λ w. w.version_id === i.goods_version_id)
                  (λ w. record w { count = w.count -ℤ i.count }) t))
            ≡ some (record v { count = v.count -ℤ i.count }) =
          rw (rows-update, same)
            (find-map_where_key (λ w. w.version_id) id
              (λ w. record w { count = w.count -ℤ i.count }) _ v (λ w. refl) e) in
        let sum : v.count -ℤ (i.count +ℤ taken id is) ≡ v.count -ℤ i.count -ℤ taken id is =
          omega int_laws in
        rw (hit, sum) (find-reduce_stock id is _ _ step)
    | inr miss ↦
        let step : find (has_version id) (
              rows (
                update (λ w. w.version_id === i.goods_version_id)
                  (λ w. record w { count = w.count -ℤ i.count }) t))
            ≡ some v =
          rw
            (
              rows-update,
              find-map_where_other (λ w. w.version_id) i.goods_version_id id
                  (λ w. record w { count = w.count -ℤ i.count }) (rows t) (λ w. refl)
                  (ground (arith, eq_iff i.goods_version_id id, eq_iff id i.goods_version_id)),
            )
            e in
        rw miss (find-reduce_stock id is _ v step)
  ]

  -- A granted acceptance takes from each version what the order's items ask of it, all together, and
  -- leaves the rest of the version as it was.
  pub accept_stock :
      (action_id user_id id version_id : String) (db : Db Table) (v : StoreGoodsVersion)
      → (accept prisma action_id user_id id db).0 ≡ ok tt
      → find (has_version version_id) (rows db.store_goods_version) ≡ some v
      → find
          (has_version version_id)
          (rows (accept prisma action_id user_id id db).1.store_goods_version)
        ≡ some (record v {
          count =
              v.count
              -ℤ taken version_id (select (λ i. i.order_id === id) (rows db.user_order_info));
        })
  accept_stock action_id user_id id version_id db v good e =
      rw
        (
          accept-state prisma id action_id user_id db
              (accept-found prisma id action_id user_id db good).1 good,
          ← find_many-rows,
        )
        (find-reduce_stock version_id _ db.store_goods_version v e)

  -- The versions that the check of `accept` reads.
  read_versions : List UserOrderInfo → Db Table → List StoreGoodsVersion
  read_versions items db =
      find_many (λ v. any (λ i. i.goods_version_id === v.version_id) items) db.store_goods_version

  stock_of-read_versions :
      (items : List UserOrderInfo) (db : Db Table) (i : UserOrderInfo) (id : String)
      (v : StoreGoodsVersion)
      → UniqueBy (λ w. w.version_id) (rows db.store_goods_version)
      → find (λ j. j.goods_version_id === id) items ≡ some i
      → find (has_version id) (rows db.store_goods_version) ≡ some v
      → stock_of id (read_versions items db) ≡ some v.count
  unfolding read_versions
  stock_of-read_versions items db i id v u e f =
      let q = λ (w : StoreGoodsVersion). any (λ j. j.goods_version_id === w.version_id) items in
      rw find_many-rows (
        stock_of-find id (select q (rows db.store_goods_version)) v
          (UniqueBy-select (λ w. w.version_id) q _ u)
          (find-select (has_version id) q _ (λ w hit.
              rw ((eq_iff w.version_id id).0 hit)
                (any-find (λ j. j.goods_version_id === id) items i e))
            ∙ f))

  accept_checked :
      (action_id user_id id : String) (db : Db Table)
      → (accept prisma action_id user_id id db).0 ≡ ok tt
      → let items = find_many (λ i. i.order_id === id) db.user_order_info in
        (check_stock (read_versions items db) items db).0 ≡ ok tt
  unfolding accept read_versions
  accept_checked action_id user_id id db good = grind (arith, check_stock-state)

  -- If each line of the order names another version, a granted acceptance leaves no stock that was
  -- not negative below zero.
  pub accept-nonneg_stock :
      (action_id user_id id version_id : String) (db : Db Table) (v : StoreGoodsVersion)
      → UniqueBy (λ w. w.version_id) (rows db.store_goods_version)
      → UniqueBy
          (λ i. i.goods_version_id)
          (select (λ i. i.order_id === id) (rows db.user_order_info))
      → (accept prisma action_id user_id id db).0 ≡ ok tt
      → find (has_version version_id) (rows db.store_goods_version) ≡ some v
      → pos 0 ≤ℤ v.count
      → (w : StoreGoodsVersion) × (find
            (has_version version_id)
            (rows (accept prisma action_id user_id id db).1.store_goods_version)
          ≡ some w)
        × (pos 0 ≤ℤ w.count)
  unfolding Covered
  accept-nonneg_stock action_id user_id id version_id db v uv ui good e h =
      let items = select (λ i. i.order_id === id) (rows db.user_order_info) in
      let left : pos 0 ≤ℤ v.count -ℤ taken version_id items =
        elim (Option-cases (find (λ i. i.goods_version_id === version_id) items)) [
          | inl unused ↦ rw (taken-none version_id items unused) (omega int_laws)
          | inr (i, f) ↦
              let (s, es, le) =
                All-find (Covered (read_versions items db)) (λ i. i.goods_version_id === version_id)
                  items i
                  (check_stock_sound (read_versions items db) items db
                    (rw find_many-rows at (accept_checked action_id user_id id db good)))
                  f in
              let key =
                (eq_iff i.goods_version_id version_id).0
                  (find_sound (λ j. j.goods_version_id === version_id) items i f) in
              let stock = stock_of-read_versions items db i version_id v uv f e in
              let found : stock_of version_id (read_versions items db) ≡ some s = rw key at es in
              let same : s ≡ v.count = cc (stock, found) in
              let le' : i.count ≤ℤ v.count = rw same at le in
              rw (taken_unique version_id items i ui f) (omega int_laws)
        ] in
      (
        record v { count = v.count -ℤ taken version_id items },
        accept_stock action_id user_id id version_id db v good e,
        left,
      )

  accept_grants :
      (action_id user_id id : String) (db : Db Table) (o : UserOrder)
      → find_at prisma id stage_create db ≡ some o
      → let items = find_many (λ i. i.order_id === id) db.user_order_info in
        (check_stock (read_versions items db) items db).0 ≡ ok tt
        → (accept prisma action_id user_id id db).0 ≡ ok tt
  unfolding accept read_versions
  accept_grants action_id user_id id db o e h = grind (arith, check_stock-state)

  -- An order with two lines of one version is accepted when each line alone is covered, also where
  -- the two together are not; the stock is then negative.
  pub accept_oversells :
      (action_id user_id id version_id : String) (db : Db Table) (o : UserOrder)
      (v : StoreGoodsVersion) (i j : UserOrderInfo)
      → UniqueBy (λ w. w.version_id) (rows db.store_goods_version)
      → find_at prisma id stage_create db ≡ some o
      → select (λ l. l.order_id === id) (rows db.user_order_info) ≡ i ∷ j ∷ []
      → i.goods_version_id ≡ version_id
      → j.goods_version_id ≡ version_id
      → find (has_version version_id) (rows db.store_goods_version) ≡ some v
      → i.count ≤ℤ v.count
      → j.count ≤ℤ v.count
      → ¬ (i.count +ℤ j.count ≤ℤ v.count)
      → let (r, db') = accept prisma action_id user_id id db in
        (r ≡ ok tt)
        × ((w : StoreGoodsVersion) × (find (has_version version_id) (rows db'.store_goods_version)
              ≡ some w)
            × ¬ (pos 0 ≤ℤ w.count))
  unfolding check_stock
  accept_oversells action_id user_id id version_id db o v i j uv at_create lines ei ej e ci cj
        over =
      let stock =
        stock_of-read_versions (i ∷ j ∷ []) db i version_id v uv
          (ground (arith, eq_iff i.goods_version_id version_id)) e in
      let versions = read_versions (i ∷ j ∷ []) db in
      let stock_i = ap (λ k. stock_of k versions) ei ∙ stock in
      let stock_j = ap (λ k. stock_of k versions) ej ∙ stock in
      let passes : (check_stock versions (i ∷ j ∷ []) db).0 ≡ ok tt = ground arith in
      let good =
        accept_grants action_id user_id id db o at_create (rw (find_many-rows, lines) passes) in
      let items = select (λ l. l.order_id === id) (rows db.user_order_info) in
      let sum : taken version_id (i ∷ j ∷ []) ≡ i.count +ℤ (j.count +ℤ pos 0) =
        ground
          (arith, eq_iff i.goods_version_id version_id, eq_iff j.goods_version_id version_id) in
      let total : taken version_id items ≡ i.count +ℤ (j.count +ℤ pos 0) =
        ap (taken version_id) lines ∙ sum in
      let short : ¬ (pos 0 ≤ℤ v.count -ℤ taken version_id items) = rw total (omega int_laws) in
      (
        good,
        (
          record v { count = v.count -ℤ taken version_id items },
          accept_stock action_id user_id id version_id db v good e,
          short,
        ),
      )
