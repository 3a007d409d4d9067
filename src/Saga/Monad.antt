-- ===== src/Saga/Monad.antt =====
-- A run of statements that may throw, and that a crash may end before any statement. Each
-- statement is committed alone; what ran before a crash stays. A statement or a call of another
-- service may also be lost on its way, or the answer to it.
use stablecoin_treasury.Prelude.{List, [], ◌∷◌}
use stablecoin_treasury.Prelude.Outcome.{Outcome, ok, err}
use stablecoin_treasury.Payment.Types.{Error, connection_lost}
use stablecoin_treasury.Saga.World.{World}

-- What becomes of a statement: it runs, it is lost, or it runs and its answer is lost.
pub data Fate : Type 0 where
  runs lost answer_lost : Fate

-- How a run ends, with the fates that are left.
pub data Ending {ℓ} (A : Type ℓ) : Type ℓ where
  done : A → List Fate → World → Ending A
  threw : Error → List Fate → World → Ending A
  crashed : World → Ending A

-- A run, given the fates of its statements: the process crashes where they end.
abbrev pub Saga {ℓ} : Type ℓ → Type ℓ
Saga A = List Fate → World → Ending A

abbrev pub return {ℓ} : {A : Type ℓ} → A → Saga A
return a n w = done a n w

abbrev pub throw {ℓ} : {A : Type ℓ} → Error → Saga A
throw e n w = threw e n w

abbrev pub on_done {ℓ κ} : {A : Type ℓ} {B : Type κ} → (A → Saga B) → Ending A → Ending B
on_done f (done a n w) = f a n w
on_done f (threw e n w) = threw e n w
on_done f (crashed w) = crashed w

infixl 5 ◌>>=◌ ◌>>◌
abbrev pub ◌>>=◌ {ℓ κ} : {A : Type ℓ} {B : Type κ} → Saga A → (A → Saga B) → Saga B
m >>= f = λ n w. on_done f (m n w)

abbrev pub ◌>>◌ {ℓ κ} : {A : Type ℓ} {B : Type κ} → Saga A → Saga B → Saga B
m >> k = m >>= λ _. k

abbrev pub on_threw {ℓ} : {A : Type ℓ} → (Error → Saga A) → Ending A → Ending A
on_threw h (done a n w) = done a n w
on_threw h (threw e n w) = h e n w
on_threw h (crashed w) = crashed w

-- `try m catch (error) h`; a crash is not caught.
abbrev pub catch {ℓ} : {A : Type ℓ} → Saga A → (Error → Saga A) → Saga A
catch m h n w = on_threw h (m n w)

abbrev pub lift {ℓ} : {A : Type ℓ} → List Fate → Outcome Error A × World → Ending A
lift n (ok a, w) = done a n w
lift n (err e, w) = threw e n w

-- One statement or one call.
abbrev pub statement {ℓ} : {A : Type ℓ} → (World → Outcome Error A × World) → Saga A
statement f [] w = crashed w
statement f (runs ∷ n) w = lift n (f w)
statement f (lost ∷ n) w = threw connection_lost n w
statement f (answer_lost ∷ n) w = threw connection_lost n (f w).1

abbrev pub world_of {ℓ} : {A : Type ℓ} → Ending A → World
world_of (done a n w) = w
world_of (threw e n w) = w
world_of (crashed w) = w

-- What holds at the end of a run, by how it ends.
abbrev pub Ends {ℓ} : {A : Type ℓ} → (A → World → Type 0) → (World → Type 0) → Ending A → Type 0
Ends Q R (done a n w) = Q a w
Ends Q R (threw e n w) = R w
Ends Q R (crashed w) = R w

-- A run from a world with P ends with Q, or is thrown out or crashes with R.
abbrev pub Triple {ℓ} :
    {A : Type ℓ} → (World → Type 0) → Saga A → (A → World → Type 0) → (World → Type 0) → Type 0
Triple P m Q R = (n : List Fate) (w : World) → P w → Ends Q R (m n w)

module _ {A : Type 0} (R : World → Type 0) where
  pub Triple-then :
      {B : Type 0} (P : World → Type 0) (m : Saga A) (Q : A → World → Type 0) (f : A → Saga B)
      (S : B → World → Type 0)
      → Triple P m Q R
      → ((a : A) → Triple (Q a) (f a) S R)
      → Triple P (m >>= f) S R
  Triple-then {B} P m Q f S tm tf n w h = step (m n w) (tm n w h)
    where
      step : (r : Ending A) → Ends Q R r → Ends S R (on_done f r)
      step (done a k v) q = tf a k v q
      step (threw e k v) q = q
      step (crashed v) q = q

  pub Triple-catch :
      (P : World → Type 0) (m : Saga A) (Q : A → World → Type 0) (T : World → Type 0)
      (h : Error → Saga A)
      → ((w : World) → T w → R w)
      → Triple P m Q T
      → ((e : Error) → Triple T (h e) Q R)
      → Triple P (catch m h) Q R
  Triple-catch P m Q T h weaker tm th n w p = step (m n w) (tm n w p)
    where
      step : (r : Ending A) → Ends Q T r → Ends Q R (on_threw h r)
      step (done a k v) q = q
      step (threw e k v) q = th e k v q
      step (crashed v) q = weaker v q

-- The result of one statement.
abbrev pub After {ℓ} :
    {A : Type ℓ} → (A → World → Type 0) → (World → Type 0) → Outcome Error A × World → Type 0
After Q R (ok a, w) = Q a w
After Q R (err e, w) = R w

module _ {A : Type 0} (P : World → Type 0) (Q : A → World → Type 0) (R : World → Type 0) where
  pub Triple-statement :
      (f : World → Outcome Error A × World)
      → ((w : World) → P w → R w)
      → ((a : A) (w : World) → Q a w → R w)
      → ((w : World) → P w → After Q R (f w))
      → Triple P (statement f) Q R
  Triple-statement f before after runs_ok [] w h = before w h
  Triple-statement f before after runs_ok (runs ∷ n) w h = step (f w) (runs_ok w h)
    where
      step : (r : Outcome Error A × World) → After Q R r → Ends Q R (lift n r)
      step (ok a, v) q = q
      step (err e, v) q = q
  Triple-statement f before after runs_ok (lost ∷ n) w h = before w h
  Triple-statement f before after runs_ok (answer_lost ∷ n) w h = step (f w) (runs_ok w h)
    where
      step : (r : Outcome Error A × World) → After Q R r → R r.1
      step (ok a, v) q = after a v q
      step (err e, v) q = q

-- What holds however a run ends holds of its last world.
pub Ends-world {ℓ} :
    {A : Type ℓ} (R : World → Type 0) (r : Ending A) → Ends (λ _. R) R r → R (world_of r)
Ends-world R (done a n w) h = h
Ends-world R (threw e n w) h = h
Ends-world R (crashed w) h = h
