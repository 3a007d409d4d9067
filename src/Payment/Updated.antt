-- ===== src/Payment/Updated.antt =====
-- What an UPDATE of payment.payments under the transition trigger can come to.
use stablecoin_treasury.Prelude.{
  ℕ, ◌≡◌, inl, inr, Bool, true, false, ◌||◌, Option, none, some, List, ◌∷◌, [], ◌++◌, arith,
  Bool-cases, Option-cases,
}
use stablecoin_treasury.Prelude.Outcome.{Outcome, ok, err}
use stablecoin_treasury.Payment.Types.{
  Status, status_eq, Payment, PaymentEvent, Db, Error, invalid_transition,
}
use stablecoin_treasury.Payment.Table.{
  find_row, write_row, update_payment, transition_trigger, transition_allowed,
}

-- The trigger lets this change of status pass.
abbrev pub is_step : Status → Status → Bool
is_step old new = status_eq new old || transition_allowed old new

module _ (id tenant : ℕ) (patch : Payment → Payment) (db : Db) where
  abbrev pub written_db : Payment → List PaymentEvent → Db
  written_db old events = record db {
    payments = write_row id tenant (patch old) db.payments;
    events = events;
  }

  -- No row, a refusal of the trigger, or the patched row with what the trigger logged.
  pub data Updated (r : Outcome Error (Option Payment × Db)) : Type 0 where
    missing : find_row id tenant db.payments ≡ none → r ≡ ok (none, db) → Updated r
    refused :
        (old : Payment)
        → find_row id tenant db.payments ≡ some old
        → is_step old.status (patch old).status ≡ false
        → r ≡ err invalid_transition
        → Updated r
    written :
        (old : Payment) (logged : List PaymentEvent)
        → find_row id tenant db.payments ≡ some old
        → is_step old.status (patch old).status ≡ true
        → transition_trigger old (patch old) ≡ ok logged
        → r ≡ ok (some (patch old), written_db old (logged ++ db.events))
        → Updated r

  pub update_payment-Updated : Updated (update_payment id tenant patch db)
  unfolding update_payment
  update_payment-Updated = elim (Option-cases (find_row id tenant db.payments)) [
    | inl e ↦ missing e (rw (e, update_payment))
    | inr (old, e) ↦ elim (Bool-cases (status_eq (patch old).status old.status)) [
      | inl same ↦ written old [] e (rw same) (rw same) (rw (e, update_payment, same))
      | inr changes ↦ elim (Bool-cases (transition_allowed old.status (patch old).status)) [
        | inl allowed ↦
            written old
              (record {
                payment_id = (patch old).id;
                from_status = some old.status;
                to_status = (patch old).status;
              }
                ∷ [])
              e (rw (changes, allowed)) (rw (changes, allowed))
              (rw (e, update_payment, changes, allowed))
        | inr forbidden ↦
            refused old e (rw (changes, forbidden)) (rw (e, update_payment, changes, forbidden))
      ]
    ]
  ]

pub status_eq→≡ : (a b : Status) → status_eq a b ≡ true → a ≡ b
status_eq→≡ a b h = ground arith
