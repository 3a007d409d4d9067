-- ===== src/Policy/Decision.antt =====
-- What a Clear decision stands for.
use text.Mathlib.Text.{◌==◌ as str_eq}
use stablecoin_treasury.Prelude.{◌≤◌, List, ◌==◌, ◌*◌, ◌⊎◌, Option, none, some}
use stablecoin_treasury.Policy.Evaluate.{Evaluation, Share, Holding, concentration}

-- The largest share of an asset after a payment is within the limit or no larger than before.
abbrev pub Spread : Share → Evaluation → Option (List Holding) → Type 0
Spread limit e none = Unit {0}
Spread limit e (some wallets) =
    let (current, projected) = concentration wallets e in
    (projected.numerator * limit.denominator ≤ limit.numerator * projected.denominator)
    ⊎ (projected.numerator * current.denominator ≤ current.numerator * projected.denominator)
