-- ===== src/Common/Effect.antt =====
-- Asynchronous calls: a call changes the world, notes what it was and how it ended, and returns or
-- throws. What was done and noted before an exception stays done and noted.
use mathlib.Core.Bool.{Bool, true, false}
use mathlib.Core.List.{List, [], ◌∷◌, ◌++◌}

pub data Outcome {ℓ} (A : Type ℓ) : Type ℓ where
  returned : A → Outcome A
  threw : Outcome A

abbrev pub has_thrown {ℓ} : {A : Type ℓ} → Outcome A → Bool
has_thrown (returned a) = false
has_thrown threw = true

-- A program on a world `W` that notes events `E`.
abbrev pub Run : Type 0 → Type 0 → Type 0 → Type 0
Run W E A = W → Outcome A × (W × List E)

module _ {W E : Type 0} where
  abbrev pub pure : {A : Type 0} → A → Run W E A
  pure a w = (returned a, (w, []))

  abbrev pub throw : {A : Type 0} → Run W E A
  throw w = (threw, (w, []))

  -- One call, with the note of how it ended.
  abbrev pub call : {A : Type 0} → (Outcome A → E) → (W → Outcome A × W) → Run W E A
  call note f w = let (r, w') = f w in (r, (w', note r ∷ []))

  -- The log of a continuation stands behind what is logged already.
  abbrev pub behind : {A : Type 0} → List E → Outcome A × (W × List E) → Outcome A × (W × List E)
  behind log (r, (w, more)) = (r, (w, log ++ more))

  abbrev pub continue :
      {A B : Type 0} → Outcome A × (W × List E) → (A → Run W E B) → Outcome B × (W × List E)
  continue (returned a, (w, log)) f = behind log (f a w)
  continue (threw, (w, log)) f = (threw, (w, log))

  abbrev pub recover :
      {A : Type 0} → Outcome A × (W × List E) → Run W E A → Outcome A × (W × List E)
  recover (returned a, (w, log)) handler = (returned a, (w, log))
  recover (threw, (w, log)) handler = behind log (handler w)

  -- `try { ... } catch { ... }`
  abbrev pub attempt : {A : Type 0} → Run W E A → Run W E A → Run W E A
  attempt m handler w = recover (m w) handler

infixl 5 ◌>>=◌ ◌>>◌
abbrev pub ◌>>=◌ : {W E A B : Type 0} → Run W E A → (A → Run W E B) → Run W E B
◌>>=◌ m f w = continue (m w) f

abbrev pub ◌>>◌ : {W E A B : Type 0} → Run W E A → Run W E B → Run W E B
m >> k = m >>= λ _. k
