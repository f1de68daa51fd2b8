-- ===== src/Cashier/Pricing.antt =====
-- `calcMemberPayAmounts` and its helpers of src/store/cashier/cashier.service.ts. Amounts are whole
-- cents and whole points; the settings' rates are JavaScript numbers, which may have fractions, and
-- the roundings of products and quotients with them are operations of the runtime.
use open_api.Prelude.{
  ℤ, pos, ◌+ℤ◌, ◌-ℤ◌, ◌==ℤ◌, ◌≤ℤ◌, ltb_ℤ, leb_ℤ, min_ℤ, max_zero, int_laws, Bool, true, ◌&&◌, ◌||◌,
  ◌≡◌, inl, inr, get_or, Option, none, some, List, any, select, length, ◌==◌, if◌then◌else◌, arith,
  Bool-cases,
}

-- The numbers of the runtime, and the roundings that the source takes of them.
pub record Numbers : Type 1 where
  pub Number : Type 0
  pub one : Number
  pub ten : Number
  pub hundred : Number
  -- `n || d` takes the default where this is true.
  pub is_falsy : Number → Bool
  -- `n >= 10`
  pub is_ten : Number → Bool
  -- `Math.round(n * 10)`
  pub tenfold : Number → ℤ
  -- `Math.round((cents * percent) / 100)`
  pub discounted : ℤ → ℤ → ℤ
  -- `Math.round((points / ratio) * 100)`
  pub points_value : ℤ → Number → ℤ
  -- `Math.round((cents / 100) * ratio)`
  pub points_for : ℤ → Number → ℤ
  -- `Math.floor((cents / 100) * rate)`
  pub earned : ℤ → Number → ℤ

module _ (js : Numbers) where
  open js use {Number}

  -- The settings of a store; the days that are no numbers are left out.
  pub record Settings : Type 0 where
    pub points_per_yuan : Option Number
    pub points_redemption_ratio : Option Number
    pub redemption_enabled : Option Bool
    pub redemption_days : List ℤ
    pub member_discount_rate : Option Number

  pub record Amounts : Type 0 where
    pub discounted_total : ℤ
    pub points_used : ℤ
    pub points_discount : ℤ
    pub payable : ℤ
    pub earn_points : ℤ
    pub is_redemption_day : Bool
    pub discount_rate : ℤ

  -- `n || d`
  abbrev pub number_or : Option Number → Number → Number
  number_or none d = d
  number_or (some n) d = if js.is_falsy n then d else n

  unfoldable pub get_member_scan_discount_rate : Settings → ℤ
  get_member_scan_discount_rate settings =
      let rate = get_or settings.member_discount_rate js.ten in
      if js.is_ten rate then pos 100 else js.tenfold rate

  unfoldable pub is_points_redemption_day : ℤ → Settings → Bool
  is_points_redemption_day today settings =
      let days = select (λ d. leb_ℤ (pos 1) d && leb_ℤ d (pos 31)) settings.redemption_days in
      get_or settings.redemption_enabled true && (length days == 0 || any (λ d. d ==ℤ today) days)

  -- The points that are used, and the discount for them, out of so many.
  unfoldable pub redeem : ℤ → ℤ → Number → ℤ × ℤ
  redeem available total ratio =
      let discount = min_ℤ total (js.points_value available ratio) in
      let used = js.points_for discount ratio in
      if ltb_ℤ available used
      then (available, min_ℤ (js.points_value available ratio) total)
      else (used, discount)

  -- `calcMemberPayAmounts`, for the total and the member's points on a day of the month.
  unfoldable pub calc_member_pay_amounts : ℤ → ℤ → ℤ → Settings → Amounts
  calc_member_pay_amounts today total_amount available settings =
      let rate = get_member_scan_discount_rate settings in
      let total = js.discounted total_amount rate in
      let is_day = is_points_redemption_day today settings in
      let redeemed =
        if is_day && ltb_ℤ (pos 0) available
        then redeem available total (number_or settings.points_redemption_ratio js.hundred)
        else (pos 0, pos 0) in
      let payable = total -ℤ redeemed.1 in
      record {
        discounted_total = total;
        points_used = redeemed.0;
        points_discount = redeemed.1;
        payable = payable;
        earn_points = js.earned payable (number_or settings.points_per_yuan js.one);
        is_redemption_day = is_day;
        discount_rate = rate;
      }

  redeem_bounds :
      (available total : ℤ) (ratio : Number)
      → ((redeem available total ratio).0 ≤ℤ available)
        × ((redeem available total ratio).1 ≤ℤ total)
  unfolding redeem
  redeem_bounds available total ratio = (ground arith, ground arith)

  -- With a discounted total that is not negative, the payable amount and the points' discount make
  -- up that total, the payable amount is not negative, and no more points are used than the member
  -- has; whatever the roundings do.
  pub calc_member_pay_amounts_bounds :
      (today total_amount available : ℤ) (settings : Settings)
      → pos 0 ≤ℤ (calc_member_pay_amounts today total_amount available settings).discounted_total
      → (((calc_member_pay_amounts today total_amount available settings).payable
              +ℤ (calc_member_pay_amounts today total_amount available settings).points_discount
            ≡ (calc_member_pay_amounts today total_amount available settings).discounted_total)
          × (pos 0 ≤ℤ (calc_member_pay_amounts today total_amount available settings).payable)
          × ((calc_member_pay_amounts today total_amount available settings).points_used
              ≤ℤ max_zero available))
  unfolding calc_member_pay_amounts
  calc_member_pay_amounts_bounds today total_amount available settings h =
      let total = js.discounted total_amount (get_member_scan_discount_rate settings) in
      let bounds =
        redeem_bounds available total (number_or settings.points_redemption_ratio js.hundred) in
      elim (Bool-cases (is_points_redemption_day today settings && ltb_ℤ (pos 0) available)) [
        | inl day ↦ rw day (grind int_laws, grind int_laws, ground arith)
        | inr ordinary ↦ rw ordinary (grind int_laws, grind int_laws, ground arith)
      ]
