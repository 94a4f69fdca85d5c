-- ===== src/Base/Monad.antt =====
-- Programs on a state that may fail: `none` ends the run.
use mathlib.Core.Option.{Option, none, some}

abbrev pub State : Type 0 → Type 0 → Type 0
State S A = S → Option (A × S)

infixl 5 ◌>>=◌ ◌>>◌
abbrev pub ◌>>=◌ : {S A B : Type 0} → State S A → (A → State S B) → State S B
◌>>=◌ first then s = elim (first s) [ some (a, s') ↦ then a s' | none ↦ none ]

abbrev pub ◌>>◌ : {S B : Type 0} → State S (Unit {0}) → State S B → State S B
first >> second = first >>= λ _. second

abbrev pub pure : {S A : Type 0} → A → State S A
pure a s = some (a, s)
