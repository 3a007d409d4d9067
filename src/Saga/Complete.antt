-- ===== src/Saga/Complete.antt =====
-- Runs that end: what a run that nothing disturbs returns and leaves.
use stablecoin_treasury.Prelude.{ℕ, zero, suc, ◌+◌, ◌≡◌, arith, subst, List, [], ◌∷◌}
use stablecoin_treasury.Prelude.Outcome.{Outcome, ok, err}
use stablecoin_treasury.Payment.Types.{Error}
use stablecoin_treasury.Saga.World.{World}
use stablecoin_treasury.Saga.Monad.{
  Fate, runs, lost, answer_lost, Ending, done, threw, crashed, Saga, ◌>>=◌, on_done, catch,
  on_threw, statement, lift, return,
}

-- The next statements run, at least as many as given.
unfoldable pub Undisturbed : ℕ → List Fate → Type 0
Undisturbed zero n = Unit {0}
Undisturbed (suc k) [] = ⊥
Undisturbed (suc k) (runs ∷ n) = Undisturbed k n
Undisturbed (suc k) (lost ∷ n) = ⊥
Undisturbed (suc k) (answer_lost ∷ n) = ⊥

pub Undisturbed-fewer : (k : ℕ) (n : List Fate) → Undisturbed (suc k) n → Undisturbed k n
unfolding Undisturbed
Undisturbed-fewer zero n h = tt
Undisturbed-fewer (suc k) [] h = h
Undisturbed-fewer (suc k) (runs ∷ n) h = Undisturbed-fewer k n h
Undisturbed-fewer (suc k) (lost ∷ n) h = h
Undisturbed-fewer (suc k) (answer_lost ∷ n) h = h

-- A run that returned, with what holds then and the statements that may still run.
abbrev pub Returned {ℓ} : {A : Type ℓ} → ℕ → (A → World → Type 0) → Ending A → Type 0
Returned k Q (done a n w) = Undisturbed k n × Q a w
Returned k Q (threw e n w) = ⊥
Returned k Q (crashed w) = ⊥

-- A run from a world with P returns with Q, if `k` statements run, and then `j` may still run.
abbrev pub Completes {ℓ} :
    {A : Type ℓ} → ℕ → (World → Type 0) → Saga A → ℕ → (A → World → Type 0) → Type 0
Completes k P m j Q = (n : List Fate) (w : World) → Undisturbed k n → P w → Returned j Q (m n w)

-- A statement that succeeds.
abbrev pub Succeeds {ℓ} : {A : Type ℓ} → (A → World → Type 0) → Outcome Error A × World → Type 0
Succeeds Q (ok a, w) = Q a w
Succeeds Q (err e, w) = ⊥

module _ {A : Type 0} (k j : ℕ) (P : World → Type 0) (m : Saga A) (Q : A → World → Type 0)
    (cm : Completes k P m j Q) where
  pub Completes-then :
      {B : Type 0} (i : ℕ) (f : A → Saga B) (S : B → World → Type 0)
      → ((a : A) → Completes j (Q a) (f a) i S)
      → Completes k P (m >>= f) i S
  Completes-then {B} i f S cf n w free h = step (m n w) (cm n w free h)
    where
      step : (r : Ending A) → Returned j Q r → Returned i S (on_done f r)
      step (done a l v) q = cf a l v q.0 q.1
      step (threw e l v) q = q
      step (crashed v) q = q

  pub Completes-catch : (h : Error → Saga A) → Completes k P (catch m h) j Q
  Completes-catch h n w free p = step (m n w) (cm n w free p)
    where
      step : (r : Ending A) → Returned j Q r → Returned j Q (on_threw h r)
      step (done a l v) q = q
      step (threw e l v) q = absurd q
      step (crashed v) q = absurd q

  pub Completes-fewer : Completes (suc k) P m j Q
  Completes-fewer n w free h = cm n w (Undisturbed-fewer k n free) h

module _ {A : Type 0} (P : World → Type 0) (Q : A → World → Type 0) (k : ℕ)
    (f : World → Outcome Error A × World) (succeeds : (w : World) → P w → Succeeds Q (f w)) where
  pub Completes-statement : Completes (suc k) P (statement f) k Q
  unfolding Undisturbed
  Completes-statement [] w free h = absurd free
  Completes-statement (runs ∷ n) w free h = step (f w) (succeeds w h)
    where
      step : (r : Outcome Error A × World) → Succeeds Q r → Returned k Q (lift n r)
      step (ok a, v) q = (free, q)
      step (err e, v) q = q
  Completes-statement (lost ∷ n) w free h = absurd free
  Completes-statement (answer_lost ∷ n) w free h = absurd free

pub Undisturbed-less : (d k : ℕ) (n : List Fate) → Undisturbed (d + k) n → Undisturbed k n
Undisturbed-less zero k n h =
    let same : 0 + k ≡ k = omega arith in subst (λ m. Undisturbed m n) same h
Undisturbed-less (suc d) k n h =
    let next : suc d + k ≡ suc (d + k) = omega arith in
    Undisturbed-less d k n (Undisturbed-fewer (d + k) n (subst (λ m. Undisturbed m n) next h))

-- A run that has nothing left to do.
pub Completes-return :
    {A : Type 0} (d k : ℕ) (P : World → Type 0) (Q : A → World → Type 0) (a : A)
    → ((w : World) → P w → Q a w)
    → Completes (d + k) P (return a) k Q
Completes-return d k P Q a is n w free h = (Undisturbed-less d k n free, is w h)
