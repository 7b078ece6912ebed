-- ===== src/Payments/Reversal/Status.antt =====
-- The status of an order after one of its payments was reversed.
use mathlib.Core.Path.{subst}
use alpha_shadow.Prelude.{
  ◌≡◌, ◌≢◌, refl, sym, ◌∙◌, Bool, true, false, ◌&&◌, all, All, arith, if◌then◌else◌, ℤ, pos, ◌≤ℤ◌,
  ◌<ℤ◌, leb_ℤ, some, List, [], ◌∷◌, Text, ok, >>=-eq-ok, ok-injective, not_found, Bool-cases, inl,
  inr,
}
use alpha_shadow.Prelude.Transactions.{some_or, some_or-eq-ok}
use alpha_shadow.Payments.Totals.{
  OrderPaymentStatus, payable, paid, refund_pending, order_refunded, order_voided, PaymentStatus,
  refunded, OrderFinancialSnapshot, OrderTotalsComputation, compute_order_totals, is_refunded,
  non_empty, next_order_payment_status,
}
use alpha_shadow.Payments.Totals.Balance.{compute_order_totals-eq-ok, balance-covered}
use alpha_shadow.Payments.Records.{PaymentWrite, PaymentReads}
use alpha_shadow.Payments.Reversal.{next_status}

-- The order has payments, and every one of them is refunded.
abbrev pub AllRefunded : List PaymentStatus → Type 0
AllRefunded statuses = (statuses ≢ []) × All (λ s. s ≡ refunded) statuses

-- When an order has a status: it is voided exactly when no line is active; of the others, paid are
-- those whose completed payments reach the total, also when all payments are refunded.
abbrev pub IsNextStatus : Bool → ℤ → ℤ → List PaymentStatus → OrderPaymentStatus → Type 0
IsNextStatus active total completed statuses order_voided = active ≡ false
IsNextStatus active total completed statuses paid = (active ≡ true) × (total ≤ℤ completed)
IsNextStatus active total completed statuses order_refunded =
    (active ≡ true) × (completed <ℤ total) × AllRefunded statuses
IsNextStatus active total completed statuses payable =
    (active ≡ true) × (completed <ℤ total) × ¬ AllRefunded statuses
IsNextStatus active total completed statuses refund_pending = ⊥

is_refunded-of : (s : PaymentStatus) → is_refunded s ≡ true → s ≡ refunded
is_refunded-of refunded h = refl
is_refunded-of _ h = cc

all-refunded : (ss : List PaymentStatus) → all is_refunded ss ≡ true → All (λ s. s ≡ refunded) ss
all-refunded [] h = tt
all-refunded (s ∷ ss) h =
    (is_refunded-of s (ground (arith, h)), all-refunded ss (ground (arith, h)))

refunded-all : (ss : List PaymentStatus) → All (λ s. s ≡ refunded) ss → all is_refunded ss ≡ true
refunded-all [] h = refl
refunded-all (s ∷ ss) (p, h) = rw (p, refunded-all ss h) refl

refunded-AllRefunded :
    (ss : List PaymentStatus) → non_empty ss && all is_refunded ss ≡ true → AllRefunded ss
refunded-AllRefunded [] h = cc
refunded-AllRefunded (s ∷ ss) h = ((λ e. cc), all-refunded (s ∷ ss) h)

not_refunded-AllRefunded :
    (ss : List PaymentStatus) → non_empty ss && all is_refunded ss ≡ false → ¬ AllRefunded ss
not_refunded-AllRefunded [] h (some_payment, _) = some_payment refl
not_refunded-AllRefunded (s ∷ ss) h (_, every) =
    absurd (ground (arith, sym h ∙ refunded-all (s ∷ ss) every))

uncovered :
    (remaining : ℤ) (a b : ℤ)
    → ((a ≤ℤ b) → leb_ℤ remaining (pos 0) ≡ true)
    → leb_ℤ remaining (pos 0) ≡ false
    → b <ℤ a
uncovered remaining a b h k = ground arith

module _ (snapshot : OrderFinancialSnapshot) (totals : OrderTotalsComputation)
    (computed : compute_order_totals snapshot ≡ ok totals) where
  active-IsNextStatus :
      IsNextStatus true totals.total_minor snapshot.completed_payments_minor
        snapshot.payment_statuses
        (next_order_payment_status totals snapshot)
  unfolding next_order_payment_status
  active-IsNextStatus =
      let statuses = snapshot.payment_statuses in
      let covered =
        balance-covered totals.remaining_balance_minor snapshot.completed_payments_minor
          totals.total_minor (compute_order_totals-eq-ok snapshot computed).balance in
      elim (Bool-cases (leb_ℤ totals.remaining_balance_minor (pos 0))) [
        | inl done ↦ rw done (refl, covered.0 done)
        | inr not_covered ↦
            let short =
              uncovered totals.remaining_balance_minor totals.total_minor
                snapshot.completed_payments_minor covered.1 not_covered in
            elim (Bool-cases (non_empty statuses && all is_refunded statuses)) [
              | inl every ↦
                  rw (not_covered, every) (refl, short, refunded-AllRefunded statuses every)
              | inr not_all ↦
                  rw (not_covered, not_all) (refl, short, not_refunded-AllRefunded statuses not_all)
            ]
      ]

  chosen-IsNextStatus :
      (active : Bool)
      → IsNextStatus active totals.total_minor snapshot.completed_payments_minor
          snapshot.payment_statuses
          (if active then next_order_payment_status totals snapshot else order_voided)
  chosen-IsNextStatus true = active-IsNextStatus
  chosen-IsNextStatus false = refl

-- The status that a reversal of a payment gives its order, from the order as it is read after the
-- change: voided exactly when no line is active; paid when the completed payments reach the total,
-- whatever the statuses of the payments; refunded when they do not and there are payments and all
-- are refunded; open in the other cases, and never waiting for a refund.
pub next_status-eq-ok :
    (reads : PaymentReads) (w : List PaymentWrite) (order_id : Text) {status : OrderPaymentStatus}
    → next_status reads w order_id ≡ ok status
    → (snapshot : OrderFinancialSnapshot) × (totals : OrderTotalsComputation)
      × (reads.load_order_financial_snapshot w order_id ≡ some snapshot)
      × (compute_order_totals snapshot ≡ ok totals)
      × IsNextStatus
          (reads.has_active_order_items w order_id)
          totals.total_minor
          snapshot.completed_payments_minor
          snapshot.payment_statuses
          status
unfolding next_status
next_status-eq-ok reads w order_id h =
    let (snapshot, loaded, h1) =
      >>=-eq-ok (some_or not_found (reads.load_order_financial_snapshot w order_id)) _ h in
    let (totals, computed, h2) = >>=-eq-ok (compute_order_totals snapshot) _ h1 in
    let active = reads.has_active_order_items w order_id in
    (
      snapshot,
      totals,
      some_or-eq-ok not_found _ loaded,
      computed,
      subst
          (IsNextStatus active totals.total_minor snapshot.completed_payments_minor
            snapshot.payment_statuses)
          (ok-injective h2) (chosen-IsNextStatus snapshot totals computed active),
    )
