-- ===== src/Business/Repository/Growth.antt =====
-- business/repository.py: what a run of writes leaves as it was.
use bfsi_voice_agent.Prelude.{
  ◌≡◌, ◌∙◌, refl, sym, ap, List, [], ◌∷◌, ◌++◌, append_nil, append_assoc,
}
use bfsi_voice_agent.Business.Repository.{
  Payment, PromiseToPay, Callback, Dispute, HardshipCase, HumanEscalation, CallEvent,
  BusinessDatabase, customer_exists, account_exists, payment_row, promise_row, callback_row,
  dispute_row, hardship_row, escalation_row, call_event_row,
}
use bfsi_voice_agent.Business.Repository.Rows.{rows_after-grows}
use bfsi_voice_agent.Business.Repository.Writes.{
  Write, write_payment, write_promise, write_callback, write_dispute, write_hardship,
  write_escalation, write_event, apply, run, apply_payment, apply_promise, apply_callback,
  apply_dispute, apply_hardship, apply_escalation, apply_event,
}

-- Every table has grown at its end, and no customer and no account is changed.
abbrev pub Grows : {A : Type 0} → List A → List A → Type 0
Grows {A = A} old new = (more : List A) × (new ≡ old ++ more)

abbrev pub Extends : BusinessDatabase → BusinessDatabase → Type 0
Extends db db' =
    (db'.customers ≡ db.customers)
    × (db'.accounts ≡ db.accounts)
    × Grows db.payments db'.payments
    × Grows db.promise_to_pay db'.promise_to_pay
    × Grows db.callbacks db'.callbacks
    × Grows db.disputes db'.disputes
    × Grows db.hardship_cases db'.hardship_cases
    × Grows db.human_escalations db'.human_escalations
    × Grows db.call_history db'.call_history

Grows-self : {A : Type 0} (rows : List A) → Grows rows rows
Grows-self rows = ([], sym (append_nil rows))

Extends-self : (db : BusinessDatabase) → Extends db db
Extends-self db = (
  refl,
  refl,
  Grows-self db.payments,
  Grows-self db.promise_to_pay,
  Grows-self db.callbacks,
  Grows-self db.disputes,
  Grows-self db.hardship_cases,
  Grows-self db.human_escalations,
  Grows-self db.call_history,
)

Extends-apply : (w : Write) (db : BusinessDatabase) → Extends db (apply w db)
Extends-apply (write_payment now id account amount date reference) db =
    rw (apply_payment now id account amount date reference db) (
      refl,
      refl,
      rows_after-grows Payment.payment_id (account_exists account db)
          (payment_row now id account amount date reference) db.payments,
      Grows-self db.promise_to_pay,
      Grows-self db.callbacks,
      Grows-self db.disputes,
      Grows-self db.hardship_cases,
      Grows-self db.human_escalations,
      Grows-self db.call_history,
    )
Extends-apply (write_promise now id account date amount) db =
    rw (apply_promise now id account date amount db) (
      refl,
      refl,
      Grows-self db.payments,
      rows_after-grows PromiseToPay.promise_id (account_exists account db)
          (promise_row now id account date amount) db.promise_to_pay,
      Grows-self db.callbacks,
      Grows-self db.disputes,
      Grows-self db.hardship_cases,
      Grows-self db.human_escalations,
      Grows-self db.call_history,
    )
Extends-apply (write_callback now id customer requested_for) db =
    rw (apply_callback now id customer requested_for db) (
      refl,
      refl,
      Grows-self db.payments,
      Grows-self db.promise_to_pay,
      rows_after-grows Callback.callback_id (customer_exists customer db)
          (callback_row now id customer requested_for) db.callbacks,
      Grows-self db.disputes,
      Grows-self db.hardship_cases,
      Grows-self db.human_escalations,
      Grows-self db.call_history,
    )
Extends-apply (write_dispute now id account reason) db =
    rw (apply_dispute now id account reason db) (
      refl,
      refl,
      Grows-self db.payments,
      Grows-self db.promise_to_pay,
      Grows-self db.callbacks,
      rows_after-grows Dispute.dispute_id (account_exists account db)
          (dispute_row now id account reason) db.disputes,
      Grows-self db.hardship_cases,
      Grows-self db.human_escalations,
      Grows-self db.call_history,
    )
Extends-apply (write_hardship now id account reason) db =
    rw (apply_hardship now id account reason db) (
      refl,
      refl,
      Grows-self db.payments,
      Grows-self db.promise_to_pay,
      Grows-self db.callbacks,
      Grows-self db.disputes,
      rows_after-grows HardshipCase.hardship_id (account_exists account db)
          (hardship_row now id account reason) db.hardship_cases,
      Grows-self db.human_escalations,
      Grows-self db.call_history,
    )
Extends-apply (write_escalation now id customer reason) db =
    rw (apply_escalation now id customer reason db) (
      refl,
      refl,
      Grows-self db.payments,
      Grows-self db.promise_to_pay,
      Grows-self db.callbacks,
      Grows-self db.disputes,
      Grows-self db.hardship_cases,
      rows_after-grows HumanEscalation.escalation_id (customer_exists customer db)
          (escalation_row now id customer reason) db.human_escalations,
      Grows-self db.call_history,
    )
Extends-apply (write_event now id customer event_type summary) db =
    rw (apply_event now id customer event_type summary db) (
      refl,
      refl,
      Grows-self db.payments,
      Grows-self db.promise_to_pay,
      Grows-self db.callbacks,
      Grows-self db.disputes,
      Grows-self db.hardship_cases,
      Grows-self db.human_escalations,
      rows_after-grows CallEvent.call_id (customer_exists customer db)
          (call_event_row now id customer event_type summary) db.call_history,
    )

Grows-trans : {A : Type 0} (xs ys zs : List A) → Grows xs ys → Grows ys zs → Grows xs zs
Grows-trans xs ys zs (more, e) (yet, e') =
    (more ++ yet, e' ∙ (ap (λ t. t ++ yet) e ∙ append_assoc xs more yet))

Extends-trans : (a b c : BusinessDatabase) → Extends a b → Extends b c → Extends a c
Extends-trans a b c h k = (
  k.0 ∙ h.0,
  k.1 ∙ h.1,
  Grows-trans a.payments b.payments c.payments h.2 k.2,
  Grows-trans a.promise_to_pay b.promise_to_pay c.promise_to_pay h.3 k.3,
  Grows-trans a.callbacks b.callbacks c.callbacks h.4 k.4,
  Grows-trans a.disputes b.disputes c.disputes h.5 k.5,
  Grows-trans a.hardship_cases b.hardship_cases c.hardship_cases h.6 k.6,
  Grows-trans a.human_escalations b.human_escalations c.human_escalations h.7 k.7,
  Grows-trans a.call_history b.call_history c.call_history h.8 k.8,
)

-- Nothing that is written changes what is there: over any run of writes the customers and the
-- accounts with their balances stay the same, and each table keeps its rows and only grows at its
-- end.
pub run-Extends : (ws : List Write) (db : BusinessDatabase) → Extends db (run ws db)
unfolding run
run-Extends [] db = Extends-self db
run-Extends (w ∷ ws) db =
    Extends-trans db (apply w db) (run ws (apply w db)) (Extends-apply w db)
      (run-Extends ws (apply w db))
