-- ===== src/Cashier/Refund.antt =====
-- `refundOrder` of src/store/cashier/cashier.service.ts. The amount is the result of
-- `Math.round(Number(amount) * 100)`, `none` where that is not finite; `yuan` prints an amount in
-- cents as `(cents / 100).toFixed(2)` does. Amounts that the source returns in yuan stay in cents.
pub mod Ledger
pub mod Balance
use Prim.Native.String.{◌++◌}
use open_api.Prelude.{
  ℕ, ℤ, pos, ok, ◌+ℤ◌, ◌-ℤ◌, ◌==ℤ◌, leb_ℤ, ltb_ℤ, max_zero, Bool, true, false, not, ◌&&◌, ◌||◌,
  String, ◌===◌, get_or, Option, none, some, if◌then◌else◌, Action, bad_request, pure, raise, gets,
  or_raise, raise_if, modify, ◌>>=◌, ◌>>◌,
}
use open_api.Schema.{UserOrder, Store, StoreMember, StoreRecharge, StoreOrderRefund, Db}
use open_api.Prisma.{Prisma}

-- The object that `refundOrder` returns.
pub record RefundResult : Type 0 where
  pub order_id : String
  pub refund_amount : ℤ
  pub refunded_amount : ℤ
  pub refundable_amount : ℤ
  pub clear_points : Bool
  pub to_balance : Bool
  pub status : String

-- `!order.user_id || order.user_id === 'CASHIER_GUEST'`
abbrev pub is_guest : UserOrder → Bool
is_guest order = order.user_id === "" || order.user_id === "CASHIER_GUEST"

-- The points of a member whose order is refunded, where they are to be cleared.
abbrev pub restored_points : UserOrder → StoreMember → ℤ
restored_points order member = max_zero (member.points +ℤ order.points_used -ℤ order.points_earn)

module _ (prisma : Prisma) (yuan : ℤ → String) where
  open prisma use {Table, find_first, update, create}

  unfoldable pub find_order : String → Db Table → Option UserOrder
  find_order id db = find_first (λ o. o.order_id === id) db.user_order

  unfoldable pub find_member : String → Db Table → Option StoreMember
  find_member id db = find_first (λ m. m.member_id === id) db.store_member

  check_store : UserOrder → StoreMember → Action (Db Table) (Option StoreMember)
  check_store order member = do
    raise_if (not (member.store_id === order.store_id)) (bad_request "会员不存在，无法退回余额")
    pure (some member)

  check_member : UserOrder → Option StoreMember → Action (Db Table) (Option StoreMember)
  check_member order none = raise (bad_request "会员不存在，无法退回余额")
  check_member order (some member) = check_store order member

  -- The member that the refund goes to; none for a guest's order.
  unfoldable pub refund_member : UserOrder → Action (Db Table) (Option StoreMember)
  unfolding check_member check_store
  refund_member order db =
      if is_guest order then (ok none, db) else check_member order (find_member order.user_id db) db

  -- The member's balance, and the points where they are cleared.
  pub pay_back : UserOrder → ℤ → Bool → Option StoreMember → Table StoreMember → Table StoreMember
  pay_back order amount clear none t = t
  pay_back order amount clear (some member) t =
      update (λ m. m.member_id === order.user_id)
        (λ m. record m {
          balance = m.balance +ℤ amount;
          points = if clear then restored_points order member else m.points;
        })
        t

  pub remark : UserOrder → ℤ → Bool → Bool → String
  remark order amount fully clear =
      (if fully then "订单退款" else "订单部分退款")
      ++ " ¥"
      ++ yuan amount
      ++ " 单号"
      ++ order.order_id
      ++ (if clear then " 已清积分" else "")

  -- The row of the account's flow.
  pub log_flow :
      String
      → UserOrder
      → ℤ
      → String
      → Option StoreMember
      → Table StoreRecharge
      → Table StoreRecharge
  log_flow recharge_id order amount text none t = t
  log_flow recharge_id order amount text (some member) t =
      create
        (record {
          recharge_id = recharge_id;
          member_id = order.user_id;
          store_id = order.store_id;
          amount = amount;
          received_amount = amount;
          cashier_name = some "店主退款";
          remark = some text;
        })
        t

  unfoldable pub refund_order :
      String → String → ℕ → String → String → Option ℤ → Bool → Action (Db Table) RefundResult
  unfolding remark
  refund_order recharge_id refund_id now order_id user_id amount_cents clear_points = do
    amount ← or_raise amount_cents (bad_request "退款金额无效")
    raise_if (leb_ℤ amount (pos 0)) (bad_request "退款金额无效")
    order ← or_raise (← gets (find_order order_id)) (bad_request "订单不存在")
    raise_if (not (order.status ==ℤ pos 1) && not (order.status ==ℤ pos 2)) (bad_request "订单状态不可退款")
    store ←
        or_raise (← gets (λ db. find_first (λ s. s.store_id === order.store_id) db.store))
          (bad_request "仅门店所有者可操作退款")
    raise_if (not (store.user_id === user_id)) (bad_request "仅门店所有者可操作退款")
    let refundable = order.money -ℤ order.refunded_amount
    raise_if (leb_ℤ refundable (pos 0) || order.status ==ℤ pos 2) (bad_request "订单已全额退款")
    raise_if (ltb_ℤ refundable amount) (bad_request ("退款金额不能超过可退金额 ¥" ++ yuan refundable))
    member ← refund_member order
    let clear = not (is_guest order) && (clear_points && not (order.refund_clear_points ==ℤ pos 1))
    let total = order.refunded_amount +ℤ amount
    let fully = leb_ℤ order.money total
    modify (λ db. record db {
      store_member = pay_back order amount clear member db.store_member;
      store_recharge =
          log_flow recharge_id order amount (remark order amount fully clear) member
            db.store_recharge;
      user_order =
          update (λ o. o.order_id === order_id)
            (λ o. record o {
              refunded_amount = total;
              refund_clear_points = if clear then pos 1 else o.refund_clear_points;
              status = if fully then pos 2 else o.status;
              update_date = now;
            })
            db.user_order;
      store_order_refund =
          create
            (record {
              refund_id = refund_id;
              store_id = order.store_id;
              order_id = order_id;
              amount = amount;
              payment_method =
                  if order.payment_method === "" then none else some order.payment_method;
            })
            db.store_order_refund;
    })
    pure (record {
      order_id = order_id;
      refund_amount = amount;
      refunded_amount = total;
      refundable_amount = max_zero (order.money -ℤ total);
      clear_points = clear;
      to_balance = not (is_guest order);
      status = if fully then "refunded" else "partial_refunded";
    })
