-- ===== src/Lib.antt =====
-- The backend of a mini program for stores: NestJS services over a relational database. The services
-- have no state of their own but the database and the sizes that a cache keeps (a field of the same
-- record), so that a method is modelled as a function from the database to a result and the database
-- after it (`Action`, Prelude/Monad.antt). An exception is the
-- result `err`; what was written before it, outside a transaction, stays written.
--
-- - Prelude.antt and its children: Boolean tests, lists as the contents of a table, tables with a
--   unique key, signed integers, and the monad of the methods.
-- - Schema.antt: the rows of prisma/schema.prisma and the database, a record of tables. Dates are
--   milliseconds, amounts are whole cents. A column that no modelled method reads is left out.
-- - Prisma.antt: the database client, which is generated code, as a record of operations on tables and
--   of the laws that the services rely on. Prisma/InMemory.antt meets them with lists of rows. An
--   `update` sets the rows that pass a test; where a method has not looked the row up before, the
--   client's exception for a missing row is `record_missing`.
-- - Order.antt: src/order/order.service.ts, a customer's order from its creation through the stages of
--   `actionAdapter`. Order/Items.antt has its forms and what needs no database. Order/Lifecycle.antt
--   gives the abstract life cycle, on the lemmas of Order/Moves.antt, and Order/Reach.antt the
--   sequences of calls, on those of Order/Early.antt; Order/Stock.antt and Order/Counts.antt are
--   about `accept`, Order/Creation.antt about `create`.
-- - Platform.antt: src/platform/platform.service.ts, quota orders and the activation codes that raise
--   a store's limits. Platform/Codes.antt is about redemptions, Platform/Confirm.antt about
--   `confirmOrder`.
-- - Cashier.antt: src/store/cashier/cashier.service.ts, the till. Push.antt is `pushOrder`,
--   Refund.antt `refundOrder`, Pricing.antt `calcMemberPayAmounts`, and Pay.antt the pending payments
--   with `memberPay`, which prices a draft, pushes it as an order and marks it paid. The
--   theorems on prices stand in Pricing.antt, the others in the folders of these names:
--   Pay/Once.antt is about one payment, Pay/Steps.antt has the steps of several, Pay/Lasting.antt
--   what every step keeps, and Pay/Overlap.antt is about two that overlap.
-- - Member.antt: src/store/member/member.service.ts, the members of a store. Member/Account.antt is
--   about `refundBalance`.
-- - Category.antt: src/store/category/category.service.ts, the tree of a store's categories.
--   Category/Tree.antt is `categoryTree` with the `array2Tree` of src/common/utils/index.ts,
--   Tree/Nested.antt describes it without loops, and Tree/Shown.antt says what it shows.
--   Ranking.antt is the exchange of neighbours that `switchRank` and that of the goods have in common,
--   Ranking/Exchange.antt its effect on the list by rank, and Category/Order.antt applies it.
-- - Goods.antt: src/store/goods/goods.service.ts. Goods/Order.antt is about `switchRank`. Goods/Create.antt
--   is `create` with `checkResourceQuota` and the `uploadFile` of src/file/file.service.ts, and
--   Goods/Upsert.antt `upsertGoodsVersion`. Below Create.antt, Images.antt and Granted.antt have what
--   Quota.antt and Batch.antt need, on the quota for images and the test for a batch.
-- - Resource.antt: src/store/store-resource/store-resource.service.ts, the room for images that a store
--   has. Resource/Approval.antt is about `approveOrder`; Resource/Used.antt is the used quota with its
--   entries in the cache of src/common/cache-manager/cache.service.ts.
-- - Staff.antt: src/store/staff/staff.service.ts, with the phone numbers of src/common/utils/index.ts.
--   Staff/Hiring.antt is about `create`.
-- - Attendance.antt: src/store/attendance/attendance.service.ts. Attendance/Shift.antt shows `punch` as
--   the steps of a shift, Attendance/Day.antt a whole day, and Attendance/Paired.antt what every
--   request keeps.
-- - Settlement.antt: src/store/settlement. Settlement/Store.antt is store-settlement.service.ts and
--   Settlement/Platform.antt platform-settlement.service.ts; Balanced.antt and its children are about
--   the totals, Due.antt, Owed.antt, Summed.antt
--   and Once.antt about the monthly run, and Online.antt about the orders of
--   src/order/order.service.ts in it. The query in SQL that counts the orders of a day is written out.
-- - Subscription.antt: src/store/store-subscription/store-subscription.service.ts, the plans,
--   subscriptions, contracts and invoices of the service that stores pay for. Dates.antt below it has
--   its forms and the months, Billing.antt is
--   src/schedules/store-service-billing.cron.ts, Paid.antt and Payment.antt are about `payInvoice` among
--   all these calls, and Entitled.antt about the orders of a subscribed store.
-- - Address.antt: src/users/address/address.service.ts. Address/Count.antt and Address/Default.antt
--   are about the default address.
-- - Access.antt: src/auth/role-management/role-management.service.ts, resources and roles, with the
--   forms of its dto folder in Forms.antt. Granted.antt is about the query of a user's resources,
--   Frozen.antt about the relations that give them. The query in SQL is written out as a join of the
--   selected rows; nothing depends on the order of rows.
-- - Application.antt: src/store/store.service.ts, how a store is applied for, judged, changed and
--   frozen. Kept.antt and Approved.antt below it follow a store that was approved once.
-- - Login.antt: `loginByPassword` and `loginFail` of src/auth/auth.service.ts, with the passwords of
--   src/users/users.service.ts. Counts.antt and Outcome.antt are about one login, Lockout.antt about a
--   day of requests and Lapse.antt about the days after.
--
-- The keys, random codes and times that the source makes (`uuid`, `Math.random`, `new Date()`)
-- are arguments. So are the functions of a JavaScript string and of dates, the hash of a
-- password, the roundings of fractional numbers and the printing of amounts; nothing is assumed
-- of them. The search for a fresh code tries ten candidates, as in the source; every other loop
-- is a recursion on the list that the source iterates. Every operation is a single step on the
-- database, as where its calls do not overlap, but for `memberPay`: the lock of the till
-- (`withLock`) holds only `pushOrder` and `refundOrder`, so `memberPay` has three steps, which
-- Cashier/Pay/Steps.antt lets interleave. Interleavings of the other services' calls are not
-- modelled.
--
-- Not modelled: controllers, data transfer objects' validation, lists and reports that only read
-- and format, sessions and remote logins, the advertising publisher, chat, the storage of files,
-- the other timers, and the remaining services of src/store. Numbers are exact integers: the width
-- of a database column is not modelled.
pub mod Prelude
pub mod Prisma
pub mod Schema
pub mod Order
pub mod Access
pub mod Address
pub mod Application
pub mod Attendance
pub mod Cashier
pub mod Category
pub mod Goods
pub mod Login
pub mod Member
pub mod Platform
pub mod Ranking
pub mod Resource
pub mod Settlement
pub mod Staff
pub mod Subscription
