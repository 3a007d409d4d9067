-- ===== src/Access/State.antt =====
-- The gateway's view of the state (services/api-gateway/src/index.mjs): every domain read, of
-- which some may fail.
use stablecoin_treasury.Prelude.{
  ◌≡◌, ◌⊎◌, refl, ap, inl, inr, true, Option, none, some, List, [], ◌∷◌, Option-cases, is_some, In,
  All,
}

-- The keys of STATE_SERVICES, in its order.
pub data StateKey : Type 0 where
  entities assets wallets counterparties policies payments journal_entries : StateKey
  reconciliation providers audit alerts repair : StateKey

pub data Backend : Type 0 where
  wallet_service compliance_service policy_service payment_service : Backend
  accounting_service reconciliation_service operations_service : Backend

abbrev pub state_services : List (StateKey × Backend)
state_services =
    (entities, wallet_service)
    ∷ (assets, wallet_service)
    ∷ (wallets, wallet_service)
    ∷ (counterparties, compliance_service)
    ∷ (policies, policy_service)
    ∷ (payments, payment_service)
    ∷ (journal_entries, accounting_service)
    ∷ (reconciliation, reconciliation_service)
    ∷ (providers, operations_service)
    ∷ (audit, operations_service)
    ∷ (alerts, operations_service)
    ∷ (repair, payment_service)
    ∷ []

-- A part of the state: what was read, `{}` or `[]`.
pub data Slice {ℓ} (V : Type ℓ) : Type ℓ where
  fetched : V → Slice V
  empty_object empty_list : Slice V

pub record State {ℓ} (V : Type ℓ) : Type ℓ where
  pub slices : List (StateKey × Slice V)
  pub degraded : List Backend

abbrev pub empty_slice {ℓ} : {V : Type ℓ} → StateKey → Slice V
empty_slice policies = empty_object
empty_slice _ = empty_list

-- The body of the loop over STATE_SERVICES.
abbrev pub add_slice {ℓ} : {V : Type ℓ} → StateKey → Backend → Option V → State V → State V
add_slice key service (some v) state = record state { slices = (key, fetched v) ∷ state.slices }
add_slice key service none state = record {
  slices = (key, empty_slice key) ∷ state.slices;
  degraded = service ∷ state.degraded;
}

unfoldable pub compose_slices {ℓ} :
    {V : Type ℓ} → (StateKey → Option V) → List (StateKey × Backend) → State V
compose_slices results [] = record { slices = []; degraded = [] }
compose_slices results ((key, service) ∷ more) =
    add_slice key service (results key) (compose_slices results more)

-- `composeState`, for the outcomes of the reads.
unfoldable pub compose_state {ℓ} : {V : Type ℓ} → (StateKey → Option V) → State V
unfolding compose_slices
compose_state results = compose_slices results state_services

-- The service that each part of the state is read from.
abbrev pub backend_of : StateKey → Backend
backend_of entities = wallet_service
backend_of assets = wallet_service
backend_of wallets = wallet_service
backend_of counterparties = compliance_service
backend_of policies = policy_service
backend_of payments = payment_service
backend_of journal_entries = accounting_service
backend_of reconciliation = reconciliation_service
backend_of providers = operations_service
backend_of audit = operations_service
backend_of alerts = operations_service
backend_of repair = payment_service

-- What a part shows: what was read, and else an object for the policies and a list for the others.
abbrev pub shown {ℓ} : {V : Type ℓ} → StateKey → Option V → Slice V
shown key (some v) = fetched v
shown policies none = empty_object
shown entities none = empty_list
shown assets none = empty_list
shown wallets none = empty_list
shown counterparties none = empty_list
shown payments none = empty_list
shown journal_entries none = empty_list
shown reconciliation none = empty_list
shown providers none = empty_list
shown audit none = empty_list
shown alerts none = empty_list
shown repair none = empty_list

listed : (k : StateKey) → In (k, backend_of k) state_services
listed entities = inl refl
listed assets = inr (inl refl)
listed wallets = inr (inr (inl refl))
listed counterparties = inr (inr (inr (inl refl)))
listed policies = inr (inr (inr (inr (inl refl))))
listed payments = inr (inr (inr (inr (inr (inl refl)))))
listed journal_entries = inr (inr (inr (inr (inr (inr (inl refl))))))
listed reconciliation = inr (inr (inr (inr (inr (inr (inr (inl refl)))))))
listed providers = inr (inr (inr (inr (inr (inr (inr (inr (inl refl))))))))
listed audit = inr (inr (inr (inr (inr (inr (inr (inr (inr (inl refl)))))))))
listed alerts = inr (inr (inr (inr (inr (inr (inr (inr (inr (inr (inl refl))))))))))
listed repair = inr (inr (inr (inr (inr (inr (inr (inr (inr (inr (inr (inl refl)))))))))))

module _ {V : Type 0} (results : StateKey → Option V) where
  -- A part that was read, or whose service is among those that failed.
  abbrev pub IsShown : StateKey → State V → Type 0
  IsShown k state =
      In (k, shown k (results k)) state.slices
      × ((is_some (results k) ≡ true) ⊎ In (backend_of k) state.degraded)

  -- A service of which some part could not be read.
  abbrev pub HasFailed : Backend → Type 0
  HasFailed b = (k : StateKey) × (backend_of k ≡ b) × (results k ≡ none)

  added-own :
      (k : StateKey) (o : Option V) (rest : State V)
      → results k ≡ o
      → IsShown k (add_slice k (backend_of k) o rest)
  added-own k (some v) rest e = rw e (inl refl, inl refl)
  added-own k none rest e = rw e (inl (nothing_shown k), inr (inl refl))
    where
      nothing_shown :
          (i : StateKey) → ◌≡◌ {A = StateKey × Slice V} (i, shown i none) (i, empty_slice i)
      nothing_shown entities = refl
      nothing_shown assets = refl
      nothing_shown wallets = refl
      nothing_shown counterparties = refl
      nothing_shown policies = refl
      nothing_shown payments = refl
      nothing_shown journal_entries = refl
      nothing_shown reconciliation = refl
      nothing_shown providers = refl
      nothing_shown audit = refl
      nothing_shown alerts = refl
      nothing_shown repair = refl

  added-other :
      (k key : StateKey) (service : Backend) (o : Option V) (rest : State V)
      → IsShown k rest
      → IsShown k (add_slice key service o rest)
  added-other k key service (some v) rest h = (inr h.0, h.1)
  added-other k key service none rest (there, inl read) = (inr there, inl read)
  added-other k key service none rest (there, inr failed) = (inr there, inr (inr failed))

  all-IsShown :
      (k : StateKey) (services : List (StateKey × Backend))
      → In (k, backend_of k) services
      → IsShown k (compose_slices results services)
  unfolding compose_slices
  all-IsShown k [] h = absurd h
  all-IsShown k ((key, service) ∷ more) (inl same) =
      let keys : k ≡ key = ap (λ p. p.0) same in
      let services : backend_of k ≡ service = ap (λ p. p.1) same in
      rw⁻¹ (keys, services) (added-own k (results k) (compose_slices results more) refl)
  all-IsShown k ((key, service) ∷ more) (inr later) =
      added-other k key service (results key) (compose_slices results more)
        (all-IsShown k more later)

  degraded-HasFailed :
      (services : List (StateKey × Backend))
      → All (λ s. backend_of s.0 ≡ s.1) services
      → All HasFailed (compose_slices results services).degraded
  unfolding compose_slices
  degraded-HasFailed [] h = tt
  degraded-HasFailed ((key, service) ∷ more) h = elim (Option-cases (results key)) [
    | inl e ↦ rw e ((key, h.0, e), degraded-HasFailed more h.1)
    | inr (v, e) ↦ rw e (degraded-HasFailed more h.1)
  ]

-- Whatever reads fail, every part of the state is shown, as it was read or as its empty value; the
-- service of a part that could not be read is listed as degraded, and no other service is.
pub compose_state_complete :
    {V : Type 0} (results : StateKey → Option V) (k : StateKey)
    → IsShown results k (compose_state results)
      × All (HasFailed results) (compose_state results).degraded
unfolding compose_state
compose_state_complete results k = (
  all-IsShown results k state_services (listed k),
  degraded-HasFailed results state_services (
    refl,
    (refl, (refl, (refl, (refl, (refl, (refl, (refl, (refl, (refl, (refl, (refl, tt))))))))))),
  ),
)
