-- ===== src/Lib.antt =====
-- The cart, checkout, order, delivery, dispatch, payment and stock services of the WerTe backend.
--
-- The program is a NestJS server over one PostgreSQL database. A customer
-- fills a cart and submits it: the checkout prices it, reserves the stock and places the order with
-- its payment; the merchant accepts it, which makes a pickup order go on by itself to READY and
-- puts a dispatch job on the queue for a delivery; the dispatch offers the order to one rider after
-- another; the rider takes it to the door. Timeouts, the customer and an admin may cancel it, which
-- gives the stock back. All of them write the order through one status write that also appends to
-- the order's history.
--
-- Files and the code that they model:
--   Prelude    Boolean tests, lists, and a table with its queries (findFirst, updateMany, count).
--   Domain     the rows of prisma/schema.prisma, the database as a record of tables, and a service
--              call as a state and exception monad, with runInTransaction and its rollback.
--   Access     src/common/policies/tenant-access-policy.helper.ts and
--              src/modules/payments/policies/finance-access-policy.helper.ts.
--   Inventory  src/modules/menus/services/menu-inventory-lifecycle.service.ts and the stock statements
--              of src/modules/menus/repositories/menus.repository.ts.
--   Carts      src/modules/carts/services/cart-mutation.service.ts and cart-pricing.service.ts.
--   Promotions src/modules/promotions/services/promotion-pricing.service.ts.
--   Checkout   src/modules/checkout/services: context, validation, pricing and submission; and
--              src/modules/payments/services/checkout-payment-intent.service.ts.
--   Orders     src/modules/orders: policies, merchant-order-handling.service.ts,
--              order-cancellation.service.ts, admin-order-operations.service.ts; and
--              src/jobs/order-timeout.job.ts, src/common/utils/run-best-effort.util.ts.
--   Deliveries src/modules/deliveries/services/rider-delivery-actions.service.ts with its policies.
--   Dispatch   src/modules/dispatch/services/auto-dispatch.service.ts with the query for riders, and
--              dispatch-assignment.service.ts.
--   Payments   src/modules/payments/services/payment-lifecycle.service.ts and
--              payment-provider-event-processor.service.ts.
--   Notifications  src/modules/notifications/utils/notification-preference-time.util.ts.
--   Common     src/common/guards/throttler.guard.ts.
--   Refunds    src/modules/refunds/services/refund-operations.service.ts and
--              refund-provider-event-processor.service.ts.
--   Flow       the diagram of an order's statuses as a relation, and the handlers against it.
--   Examples   a shop with four orders and a menu, runs of it, and the theorems at concrete inputs.
--
-- Conventions. Functions keep the code's names in snake case. An id is a number, since the code only
-- compares ids; the order of ids stands for localeCompare where lots are sorted. The actors
-- order-timeout and auto-dispatch are the users 0 and 1. A date is its getTime(). A Decimal is a
-- number of millionths. A table is a list in the order of the query that reads it (the latest dispatch
-- attempt first), and a read by primary key filters the one row that has the key. Which of the message,
-- queue and alert services answer is an argument (Services); the ids of rows that are created are
-- arguments too (Run). A handler runs as one step: handlers interleave only between calls.
--
-- handleMerchantAction calls itself for the two steps of a pickup order; these calls make no further
-- ones, so the model gives it fuel 2. The commands of Flow are the submission of a checkout, the
-- requests of customers, merchants, riders and admins, the endings of payments and the jobs; the
-- admin's override and the dispatch for a rider who becomes free are modelled but are not among them.
--
-- The amount of a refund request is what the Decimal library makes of its text (ParsedAmount), with no
-- more decimals than the column keeps; what the database makes of NaN is part of it.
--
-- What the runtime and the libraries compute is an argument: toUpperCase and the rounding of a
-- percentage (Platform), the formatting of a date (Formatter), the key of a throttled request (Hit),
-- and the latest payment or refund of a provider's reference (EventRun, RefundEventRun). Prices are
-- not negative and have at most six decimals. Each read of the clock within one call gives the same
-- time, and the local clock of the quiet hours is not put forward or back.
--
-- Not modelled: the preview of a checkout and its recovery from a
-- concurrent submission, notifications and messages beyond the codes that are published and the quiet
-- hours, and everything that is create, read, update and delete over the database.
-- HTTP, the queue, the cache and the database are libraries.
pub mod Prelude
pub mod Domain
pub mod Access
pub mod Inventory
pub mod Carts
pub mod Promotions
pub mod Checkout
pub mod Orders
pub mod Deliveries
pub mod Dispatch
pub mod Payments
pub mod Refunds
pub mod Flow
pub mod Notifications
pub mod Common
pub mod Examples
