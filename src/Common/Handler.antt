-- ===== src/Common/Handler.antt =====
-- Request handlers: a call changes the world and is noted with how it ended; an exception carries a
-- value, and what was done and noted before it stays done and noted.
use mathlib.Core.Bool.{Bool, true, false}
use mathlib.Core.List.{List, [], ◌∷◌, ◌++◌}
use mathlib.Core.Option.{Option, none, some}
use touchmyapi.Common.Outcome.{Result, ok, err}

-- A handler on a world `W` that notes events `N` and throws `E`.
abbrev pub Handler : Type 0 → Type 0 → Type 0 → Type 0 → Type 0
Handler W N E A = W → Result E A × (W × List N)

module _ {W N E : Type 0} where
  abbrev pub pure : {A : Type 0} → A → Handler W N E A
  pure a w = (ok a, (w, []))

  abbrev pub throw : {A : Type 0} → E → Handler W N E A
  throw e w = (err e, (w, []))

  abbrev pub throw_unless : Bool → E → Handler W N E (Unit {0})
  throw_unless true e = pure tt
  throw_unless false e = throw e

  abbrev pub or_throw : {A : Type 0} → E → Option A → Handler W N E A
  or_throw e none = throw e
  or_throw e (some a) = pure a

  abbrev pub call : {A : Type 0} → (Result E A → N) → (W → Result E A × W) → Handler W N E A
  call note f w = let (r, w') = f w in (r, (w', note r ∷ []))

  abbrev pub behind : {A : Type 0} → List N → Result E A × (W × List N) → Result E A × (W × List N)
  behind log (r, (w, more)) = (r, (w, log ++ more))

  abbrev pub continue :
      {A B : Type 0} → Result E A × (W × List N) → (A → Handler W N E B) → Result E B × (W × List N)
  continue (ok a, (w, log)) f = behind log (f a w)
  continue (err e, (w, log)) f = (err e, (w, log))

infixl 5 ◌>>=◌ ◌>>◌
abbrev pub ◌>>=◌ : {W N E A B : Type 0} → Handler W N E A → (A → Handler W N E B) → Handler W N E B
◌>>=◌ m f w = continue (m w) f

abbrev pub ◌>>◌ : {W N E A B : Type 0} → Handler W N E A → Handler W N E B → Handler W N E B
m >> k = m >>= λ _. k
