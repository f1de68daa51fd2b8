-- ===== src/Member.antt =====
-- src/store/member/member.service.ts: the members of a store, their recharges and the refund of a
-- balance. The amount of a refund is the result of `Math.round(Number(amount) * 100)`, `none` where
-- that is not finite; `yuan` prints an amount in cents as `(cents / 100).toFixed(2)` does.
mod Tests
pub mod Account
use Prim.Native.String.{◌++◌}
use open_api.Prelude.{
  ℕ, ℤ, pos, ◌+ℤ◌, ◌-ℤ◌, ◌==ℤ◌, leb_ℤ, ltb_ℤ, Bool, true, false, not, ◌&&◌, ◌||◌, String, ◌===◌,
  ◌==◌, get_or, or_text, is_some, unique_violation, Option, none, some, if◌then◌else◌, Action,
  bad_request, forbidden, pure, raise, gets, or_raise, raise_if, modify, ◌>>=◌, ◌>>◌,
}
use open_api.Schema.{Store, StoreMember, StoreRecharge, User, Db}
use open_api.Prisma.{Prisma}
use open_api.Platform.{assert_can_add_member}

-- CreateMemberDto
pub record CreateMember : Type 0 where
  pub store_id : String
  pub name : String
  pub phone : String
  pub gender : Option ℤ
  pub avatar : Option String
  pub birthday : Option String
  pub balance : Option ℤ
  pub points : Option ℤ

-- UpdateMemberDto
pub record UpdateMember : Type 0 where
  pub store_id : Option String
  pub name : Option String
  pub phone : Option String
  pub gender : Option ℤ
  pub avatar : Option String
  pub birthday : Option String
  pub balance : Option ℤ
  pub points : Option ℤ
  pub status : Option ℤ

-- CreateRechargeDto
pub record CreateRecharge : Type 0 where
  pub member_id : String
  pub store_id : String
  pub amount : ℤ
  pub received_amount : ℤ
  pub cashier_name : Option String
  pub remark : Option String

-- The object that `refundBalance` returns, with its amounts in cents.
pub record BalanceRefund : Type 0 where
  pub member_id : String
  pub refund_amount : ℤ
  pub balance : ℤ
  pub points : ℤ
  pub clear_points : Bool
  pub record_id : String

-- The column after an update that may leave it out.
abbrev pub or_keep : {A : Type 0} → Option A → Option A → Option A
or_keep none old = old
or_keep (some a) old = some a

-- `{ ...createMemberDto, status: 1 }` over a member who left.
abbrev pub rejoined : CreateMember → StoreMember → StoreMember
rejoined dto m = record m {
  store_id = dto.store_id;
  name = dto.name;
  phone = dto.phone;
  gender = get_or dto.gender m.gender;
  avatar = or_keep dto.avatar m.avatar;
  birthday = or_keep dto.birthday m.birthday;
  balance = get_or dto.balance m.balance;
  points = get_or dto.points m.points;
  status = pos 1;
}

-- The row of a new member, with the defaults of its columns.
abbrev pub joined : ℕ → String → CreateMember → StoreMember
joined id member_id dto = record {
  id = id;
  member_id = member_id;
  store_id = dto.store_id;
  name = dto.name;
  phone = dto.phone;
  gender = get_or dto.gender (pos 0);
  avatar = dto.avatar;
  birthday = dto.birthday;
  balance = get_or dto.balance (pos 0);
  points = get_or dto.points (pos 0);
  status = pos 1;
}

-- `data: { ...updateMemberDto }`
abbrev pub changed : UpdateMember → StoreMember → StoreMember
changed dto m = record m {
  store_id = get_or dto.store_id m.store_id;
  name = get_or dto.name m.name;
  phone = get_or dto.phone m.phone;
  gender = get_or dto.gender m.gender;
  avatar = or_keep dto.avatar m.avatar;
  birthday = or_keep dto.birthday m.birthday;
  balance = get_or dto.balance m.balance;
  points = get_or dto.points m.points;
  status = get_or dto.status m.status;
}

-- The member's row after a refund of the balance.
abbrev pub drained : ℤ → Bool → StoreMember → StoreMember
drained amount clear m = record m {
  balance = m.balance -ℤ amount;
  points = if clear then pos 0 else m.points;
}

module _ (prisma : Prisma) where
  open prisma use {Table, find_first, update, create, next_id}

  pub find_unique : String → Db Table → Option StoreMember
  find_unique id db = find_first (λ m. m.member_id === id) db.store_member

  -- `store_member.update`, by the row's number.
  pub update_row : StoreMember → (StoreMember → StoreMember) → Action (Db Table) StoreMember
  update_row member f = do
    modify (λ db. record db { store_member = update (λ m. m.id == member.id) f db.store_member })
    pure (f member)

  rejoin : CreateMember → StoreMember → Action (Db Table) StoreMember
  rejoin dto member = do
    raise_if (member.status ==ℤ pos 1) (bad_request "该手机号已注册为会员")
    assert_can_add_member prisma dto.store_id
    update_row member (rejoined dto)

  join : String → CreateMember → Action (Db Table) StoreMember
  join member_id dto = do
    assert_can_add_member prisma dto.store_id
    id ← gets (λ db. next_id db.store_member)
    modify (λ db. record db { store_member = create (joined id member_id dto) db.store_member })
    pure (joined id member_id dto)

  join_as : String → CreateMember → Option StoreMember → Action (Db Table) StoreMember
  join_as member_id dto none = join member_id dto
  join_as member_id dto (some member) = rejoin dto member

  -- `create`, with the new member's id.
  pub create_member : String → CreateMember → Action (Db Table) StoreMember
  unfolding join_as join rejoin
  create_member member_id dto = do
    existing ← gets (λ db.
        find_first (λ m. m.store_id === dto.store_id && m.phone === dto.phone) db.store_member)
    join_as member_id dto existing

  pub find_one : String → Action (Db Table) StoreMember
  find_one id = do or_raise (← gets (find_unique id)) (bad_request "会员不存在")

  -- Whether another member of the store has the phone.
  phone_of_another : StoreMember → Db Table → Bool
  phone_of_another member db = is_some (
      find_first
        (λ m.
          m.store_id === member.store_id && (m.phone === member.phone && not (m.id == member.id)))
        db.store_member)

  -- `update`: the client throws where the store and the phone are those of another row.
  pub update_member : String → UpdateMember → Action (Db Table) StoreMember
  unfolding phone_of_another
  update_member id dto = do
    member ← find_one id
    taken ← gets (phone_of_another (changed dto member))
    raise_if taken unique_violation
    update_row member (changed dto)

  pub remove_member : String → Action (Db Table) StoreMember
  remove_member id = do member ← find_one id; update_row member (λ m. record m { status = pos 0 })

  -- The row of a recharge.
  abbrev pub recharge_row : String → CreateRecharge → StoreRecharge
  recharge_row recharge_id dto = record {
    recharge_id = recharge_id;
    member_id = dto.member_id;
    store_id = dto.store_id;
    amount = dto.amount;
    received_amount = dto.received_amount;
    cashier_name = dto.cashier_name;
    remark = dto.remark;
  }

  add_flow : StoreRecharge → Action (Db Table) StoreRecharge
  add_flow row = do
    modify (λ db. record db { store_recharge = create row db.store_recharge })
    pure row

  pub recharge : String → CreateRecharge → Action (Db Table) StoreRecharge
  unfolding update_row add_flow
  recharge recharge_id dto = do
    member ← find_one dto.member_id
    update_row member (λ m. record m { balance = m.balance +ℤ dto.received_amount })
    add_flow (recharge_row recharge_id dto)

  module _ (yuan : ℤ → String) where
    -- The row of the account's flow for a refund.
    abbrev pub refund_row : String → User → StoreMember → ℤ → Bool → StoreRecharge
    refund_row recharge_id user member amount clear = record {
      recharge_id = recharge_id;
      member_id = member.member_id;
      store_id = member.store_id;
      amount = pos 0 -ℤ amount;
      received_amount = pos 0 -ℤ amount;
      cashier_name = some (
          if or_text user.first_name "" === ""
          then "店主"
          else get_or user.first_name "" ++ or_text user.last_name "");
      remark = some (if clear then "账户退费￥" ++ yuan amount ++ "（已清积分）" else "账户退费￥" ++ yuan amount);
    }

    pub refund_balance : String → String → User → Option ℤ → Bool → Action (Db Table) BalanceRefund
    unfolding update_row add_flow
    refund_balance recharge_id member_id user amount_cents clear_points = do
      amount ← or_raise amount_cents (bad_request "退费金额无效")
      raise_if (leb_ℤ amount (pos 0)) (bad_request "退费金额无效")
      member ← or_raise (← gets (find_unique member_id)) (bad_request "会员不存在")
      raise_if (not (member.status ==ℤ pos 1)) (bad_request "会员不存在")
      store ←
          or_raise (← gets (λ db. find_first (λ s. s.store_id === member.store_id) db.store))
            (forbidden "仅门店所有者可操作会员退费")
      raise_if (not (store.user_id === user.user_id)) (forbidden "仅门店所有者可操作会员退费")
      raise_if (ltb_ℤ member.balance amount) (bad_request ("退费金额不能超过账户余额 ¥" ++ yuan member.balance))
      updated ← update_row member (drained amount clear_points)
      add_flow (refund_row recharge_id user member amount clear_points)
      pure (record {
        member_id = member_id;
        refund_amount = amount;
        balance = updated.balance;
        points = updated.points;
        clear_points = clear_points;
        record_id = recharge_id;
      })
