-- ===== src/Common/SplitJoin.antt =====
-- Splitting undoes joining, where no piece holds the separator.
use mathlib.Core.Path.{◌≡◌, refl, ap, ◌∙◌}
use mathlib.Core.Bool.{false}
use mathlib.Core.List.{List, [], ◌∷◌, ◌++◌}
use Prim.Native.Nat.{ℕ}
use native.Mathlib.Omega.{arith}
use touchmyapi.Common.Tests.{◌==◌}
use touchmyapi.Common.Lists.{any, All}
use touchmyapi.Common.Texts.{Text}
use touchmyapi.Common.Search.{split, join}

abbrev pub IsFree : ℕ → Text → Type 0
IsFree c t = any (λ d. d == c) t ≡ false

pub split-free : (c : ℕ) (w : Text) → IsFree c w → split c w ≡ w ∷ []
unfolding split
split-free c [] h = refl
split-free c (d ∷ w) h = ground (arith, split-free c w)

pub split-append : (c : ℕ) (w t : Text) → IsFree c w → split c (w ++ (c ∷ t)) ≡ w ∷ split c t
unfolding split
split-append c [] t h = ground arith
split-append c (d ∷ w) t h = ground (arith, split-append c w t)

pub split-join :
    (c : ℕ) (w : Text) (ws : List Text)
    → IsFree c w
    → All (IsFree c) ws
    → split c (join c (w ∷ ws)) ≡ w ∷ ws
unfolding join
split-join c w [] h hs = split-free c w h
split-join c w (v ∷ ws) h (hv, hs) =
    split-append c w (join c (v ∷ ws)) h ∙ ap (λ r. w ∷ r) (split-join c v ws hv hs)
