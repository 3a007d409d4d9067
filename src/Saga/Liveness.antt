-- ===== src/Saga/Liveness.antt =====
-- The saga settles: a run that nothing disturbs and whose services accept.
use stablecoin_treasury.Prelude.{ℕ, suc, ◌≡◌, refl, true, Option, some, sym, subst, ◌∙◌}
use stablecoin_treasury.Prelude.Outcome.{Outcome, ok, err}
use stablecoin_treasury.Payment.Types.{Payment, Db, Error}
use stablecoin_treasury.Payment.Table.{find_row, is_row, update_payment, with_transaction}
use stablecoin_treasury.Payment.Rows.{find_row-is_row}
use stablecoin_treasury.Payment.Updated.{update_payment-Updated, missing, refused, written, is_step}
use stablecoin_treasury.Saga.World.{World, SagaStep, started, success}
use stablecoin_treasury.Saga.Monad.{Saga, statement, ◌>>=◌}
use stablecoin_treasury.Saga.Complete.{
  Completes, Succeeds, Completes-then, Completes-catch, Completes-statement,
}
use stablecoin_treasury.Saga.Run.{Job, record_attempt, insert_attempt}
use stablecoin_treasury.Saga.Rows.{find_row-write_row}
use stablecoin_treasury.Saga.Safety.{some_injective}
use stablecoin_treasury.Saga.Phases.{Phase, At}
use stablecoin_treasury.Saga.Settle.{attempted}
use stablecoin_treasury.Saga.Run.{Answers}
use stablecoin_treasury.Custody.Adapter.{Transfer}
use stablecoin_treasury.Custody.Breaker.{Breaker, enter_breaker}
use stablecoin_treasury.Saga.World.{get_breaker, set_breaker}
use stablecoin_treasury.Saga.Monad.{Ending, done, threw, crashed}
use stablecoin_treasury.Saga.Complete.{Returned}
use stablecoin_treasury.Saga.Steps.{through_breaker, settle_call}

-- A statement succeeds and leaves the payment's row as given.
abbrev pub RowIs : ℕ → ℕ → Payment → Outcome Error (Option Payment) × Db → Type 0
RowIs id tenant new (ok _, d) = find_row id tenant d.payments ≡ some new
RowIs id tenant new (err _, d) = ⊥

-- An update of a row that the trigger lets pass, and that keeps its keys, succeeds.
module _ (id tenant : ℕ) (patch : Payment → Payment)
    (keeps : (p : Payment) → is_row id tenant p ≡ true → is_row id tenant (patch p) ≡ true) (d : Db)
    (old : Payment) (found : find_row id tenant d.payments ≡ some old)
    (allowed : is_step old.status (patch old).status ≡ true) where
  pub update-RowIs :
      RowIs id tenant (patch old) (with_transaction (update_payment id tenant patch) d)
  update-RowIs = elim (update_payment-Updated id tenant patch d) [
    | missing gone _ ↦ absurd (cc)
    | refused q there stopped r ↦ let same = some_injective q old (sym there ∙ found) in absurd (cc)
    | written q logged there passed _ r ↦
        let same = some_injective q old (sym there ∙ found) in
        rw (r, with_transaction, same)
          (find_row-write_row id tenant d.payments (patch old) found
            (keeps old (find_row-is_row id tenant d.payments found)))
  ]

-- A step whose statement succeeds.
pub attempted-Completes :
    (job : Job) (step : SagaStep) (run : World → Outcome Error (Unit {0}) × World) (j : ℕ)
    (P Q : Phase)
    → ((w : World) → At P w → Succeeds (λ _. At Q) (run w))
    → Completes (suc (suc (suc j))) (At P) (attempted job step run) j (λ _. At Q)
unfolding attempted record_attempt
attempted-Completes job step run j P Q runs_ok =
    let noted =
      Completes-statement (At P) (λ _. At P) (suc (suc j)) (insert_attempt job step started)
        (λ w h. h) in
    let ran = Completes-statement (At P) (λ _. At Q) (suc j) run runs_ok in
    let recorded =
      Completes-statement (At Q) (λ _. At Q) j (insert_attempt job step success) (λ w h. h) in
    let tried = Completes-then _ _ _ _ _ ran _ _ (λ _. At Q) (λ _. recorded) in
    Completes-then _ _ _ _ _ noted _ _ _ (λ _. Completes-catch _ _ _ _ _ tried _)

-- A call that the breaker lets through and that succeeds.
module _ (answers : Answers) (provider_id : ℕ) (f : World → Outcome Error Transfer × World) (j : ℕ)
    (P : World → Type 0) (Q : Phase)
    (lets : (w : World)
      → P w
      → (b : Breaker) × (enter_breaker answers.reset_ms answers.now
            (get_breaker provider_id w.breakers)
          ≡ some b)
        × Succeeds
            (λ _. At Q)
            (f (record w { breakers = set_breaker provider_id b w.breakers }))) where
  pub through_breaker-Completes :
      Completes (suc j) P (through_breaker answers provider_id (statement f)) j (λ _. At Q)
  through_breaker-Completes n w free h =
      let allowed = lets w h in
      let entered_world = record w { breakers = set_breaker provider_id allowed.0 w.breakers } in
      let called =
        Completes-statement (λ v. v ≡ entered_world) (λ _. At Q) j f
          (λ v e. subst (λ u. Succeeds (λ _. At Q) (f u)) (sym e) allowed.2) n entered_world free
          refl in
      rw allowed.1 (after_call (statement f n entered_world) called)
    where
      after_call :
          (r : Ending Transfer)
          → Returned j (λ _. At Q) r
          → Returned j (λ _. At Q) (settle_call answers provider_id r)
      after_call (done t k v) q = q
      after_call (threw e k v) q = q
      after_call (crashed v) q = q

-- A statement on the payment tables that leaves the payment's row as given.
pub on_db-Succeeds :
    (id tenant : ℕ) (new : Payment) (w : World) (r : Outcome Error (Option Payment) × Db)
    (Q : Phase)
    → RowIs id tenant new r
    → ((d : Db) → find_row id tenant d.payments ≡ some new → Q d w.adapters w.ledger w.posts)
    → Succeeds (λ _. At Q) (r.0, record w { db = r.1 })
on_db-Succeeds id tenant new w (ok _, d) Q h after = after d h
on_db-Succeeds id tenant new w (err _, d) Q h after = absurd h

-- A statement that only reads.
pub reads-Completes :
    {A B : Type 0} (f : World → Outcome Error A × World) (a : A) (k i : ℕ) (P : World → Type 0)
    (m : A → Saga B) (S : B → World → Type 0)
    → ((w : World) → P w → f w ≡ (ok a, w))
    → Completes k P (m a) i S
    → Completes (suc k) P (statement f >>= m) i S
reads-Completes f a k i P m S reads rest =
    Completes-then _ _ _ _ (λ b w. (b ≡ a) × P w)
      (Completes-statement P (λ b w. (b ≡ a) × P w) k f (λ w h. rw (reads w h) (refl, h))) i m S
      (λ b n w free h. subst (λ c. Returned i S (m c n w)) (sym h.0) (rest n w free h.1))
