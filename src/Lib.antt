-- ===== src/Lib.antt =====
-- alpha-shadow: the money, tax, payment, discount, authorization, workflow, shift, inventory and
-- catalog logic of the restaurant backend under `src/`.
--
-- The program is a set of engines (`src/application/engines`) over contracts
-- (`src/domain/contracts`) and shared arithmetic (`src/shared`); databases and HTTP stand behind
-- ports. The engines call `AuthorizationEngine.check` before they write, compute in BigInt minor
-- units, and run their writes in one transaction of a store.
--
-- Files and what they model:
--   Prelude              integers, errors as results, maps, sorting, JSON and transactions
--   Money.Currency       `src/shared/money.ts`: the ISO 4217 table, currencyCode, minorUnitScale
--   Money.Rounding       divideRoundHalfToEven
--   Money.Amount         money, add, subtract, negate, sum, compare, equals, scale
--   Money.Allocation     allocate
--   Money.Decimal        `src/shared/decimal-text.ts`
--   Money.Storage        minorUnitsFromDb, minorUnitsToDb and the functions built on them
--   Money.Exchange       convertMoneyAtRate, and
--                        `src/application/engines/reporting/currency-conversion-engine.ts`
--   Tax.Math             `src/shared/tax-math.ts`; Invoice is allocateInvoiceTax
--   Tax.Rules            `src/domain/contracts/tax-rules.ts`: sortTaxCategories
--   Tax.Dates            the country codes and dates of that file
--   Tax.Liability, Tax.Resolution, Tax.Snapshots, Tax.Invoices
--                        `src/application/engines/tax/tax-resolution-engine.ts`: who is liable for a
--                        line, its taxes, resolveAndSnapshot and resolveInvoiceAndSnapshot
--   Tax.Cascading        `src/application/engines/tax/cascading.ts`
--   Payments.Discount    `src/application/engines/payments/discount-math.ts`
--   Payments.Totals      `src/application/engines/payments/order-totals.ts`, and
--                        nextOrderPaymentStatus of payments-engine.ts
--   Payments.Records     `src/domain/contracts/payments.ts`: the store of the payments engine
--   Payments.Collect, Payments.Replay, Payments.Engine
--                        `src/application/engines/payments/payments-engine.ts`: recordPayment
--   Payments.Reversal, Payments.Lifecycle
--                        voidPayment, refundPayment and the stock movements of a refund
--   Payments.Coupons, Payments.DiscountGate, Payments.DiscountEngine
--                        `src/application/engines/payments/discount-engine.ts`
--   Rbac.L1Cache         `src/application/engines/rbac/l1-permission-cache.ts`
--   Rbac.Authorization   `src/application/engines/rbac/authorization-engine.ts` and
--                        `src/domain/contracts/sec-v.ts`
--   Orders.Transition    `src/application/engines/orders/workflow-transition-engine.ts`
--   Shifts               `src/application/engines/shifts/shift-engine.ts`: Counts, Checks (what is
--                        checked before a write) and Engine (the transactions)
--   Catalog.Rules        `src/domain/contracts/catalog-rules.ts`
--   Catalog.Availability, Catalog.Schedules
--                        `src/application/engines/catalog/availability.ts`
--   Inventory            `src/application/engines/inventory/inventory-engine.ts`: Quantities reads
--                        texts, Receiving is what is checked before a write, Engine the operations
--   Examples             the theorems at concrete inputs
-- A module below one of these holds the theorems about it.
--
-- How the source is read:
--   A bigint is an integer ℤ over the native ℕ; `/` and `%` cut towards zero. A number that the
--   code checks with Number.isInteger is a `Num`, an integer or not; a position, a version, a
--   priority or a time is a natural number. A string is the list of its UTF-16 code units, and `<`
--   on strings is their order. A Map is an association list in insertion order. Array.sort is a
--   stable insertion sort by the comparator. An error that is thrown is its class.
--   A store is a record of functions that read it after the writes so far, and its writes are kept
--   in a list, the last one first, also when the transaction throws. The tenant of a transaction is
--   fixed. Where an operation runs two transactions, each has its own reads.
--   Reads that fail, random ids and messages are not modelled; the clock is a read of the store, or
--   an argument of the cache.
--
-- All loops are recursion on a list or on a count, with two bounds on steps. `to_text` in
-- Money.Decimal has as many digits at hand as the value and one, which Money.Decimal.RoundTrip
-- shows to be enough. The walk of Catalog.Rules along the parents of a category has a round for each
-- entry of the map and two more, which Catalog.Rules.Ends shows to be enough.
--
-- Not modelled: SQL and its triggers, HTTP, sockets, cryptography, order creation, voids, the
-- administration of taxes and of the catalog, and staff.
pub mod Prelude
pub mod Money
pub mod Payments
pub mod Rbac
pub mod Tax
pub mod Orders
pub mod Shifts
pub mod Catalog
pub mod Inventory
pub mod Examples
