-- ===== src/Common/Prefixes.antt =====
-- Prefixes and suffixes of texts, and what is left of a text without them.
use mathlib.Core.Path.{◌≡◌, refl, sym, ap, ◌∙◌}
use mathlib.Core.Bool.{true}
use mathlib.Core.List.{[], ◌∷◌, ◌++◌, reverse, reverse-append, reverse-reverse}
use native.Mathlib.Omega.{arith}
use touchmyapi.Common.Texts.{Text, starts_with, ends_with}
use touchmyapi.Common.Search.{drop_text}

pub starts_with-append : (p t : Text) → starts_with p (p ++ t) ≡ true
unfolding starts_with
starts_with-append [] t = refl
starts_with-append (c ∷ p) t = ground (arith, starts_with-append p t)

pub drop_text-append : (p t : Text) → drop_text p (p ++ t) ≡ t
drop_text-append [] t = refl
drop_text-append (c ∷ p) t = drop_text-append p t

pub append-drop_text : (p t : Text) → starts_with p t ≡ true → (p ++ drop_text p t) ≡ t
unfolding starts_with
append-drop_text [] t h = refl
append-drop_text (c ∷ p) [] h = cc
append-drop_text (c ∷ p) (d ∷ t) h = ground (arith, append-drop_text p t)

-- What `before_suffix` computes.
pub before-append : (s t : Text) → reverse (drop_text (reverse s) (reverse (t ++ s))) ≡ t
before-append s t =
    rw (reverse-append t s, drop_text-append (reverse s) (reverse t)) (reverse-reverse t)

pub ends_with-append : (s t : Text) → ends_with s (t ++ s) ≡ true
unfolding ends_with
ends_with-append s t = rw (reverse-append t s) (starts_with-append (reverse s) (reverse t))

pub append-before :
    (s t : Text) → ends_with s t ≡ true → (reverse (drop_text (reverse s) (reverse t)) ++ s) ≡ t
unfolding ends_with
append-before s t h =
    let split : (reverse s ++ drop_text (reverse s) (reverse t)) ≡ reverse t =
      append-drop_text (reverse s) (reverse t) h in
    ap (λ r. reverse (drop_text (reverse s) (reverse t)) ++ r) (sym (reverse-reverse s))
    ∙ sym (reverse-append (reverse s) (drop_text (reverse s) (reverse t)))
    ∙ ap reverse split
    ∙ reverse-reverse t
