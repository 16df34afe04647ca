-- ===== src/Reporting/Text/Labels.antt =====
-- packages/reporting/src/sanitize.ts: what the test for a signed token takes for one.
use touchmyapi.Common.{
  ◌≡◌, refl, arith, ◌∙◌, ap, true, [], ◌∷◌, ◌++◌, Text, all, is_letter, is_digit, IsFree,
  split-free, split-append,
}
use touchmyapi.Reporting.Text.{
  is_label_code, is_label, is_jwt, are_jwt_parts, redacted, safe_string,
}

label-IsFree : (t : Text) → all is_label_code t ≡ true → IsFree b'.' t
unfolding is_letter is_digit
label-IsFree [] h = refl
label-IsFree (c ∷ t) h = ground (arith, label-IsFree t)

is_jwt-labels :
    (a b c : Text)
    → is_label a ≡ true
    → is_label b ≡ true
    → is_label c ≡ true
    → is_jwt (a ++ b'.' ∷ (b ++ b'.' ∷ c)) ≡ true
unfolding is_jwt are_jwt_parts
is_jwt-labels a b c ha hb hc =
    ap are_jwt_parts (
      split-append b'.' a (b ++ b'.' ∷ c) (label-IsFree a (ground arith))
      ∙ ap (λ ts. a ∷ ts)
          (split-append b'.' b c (label-IsFree b (ground arith))
            ∙ ap (λ ts. b ∷ ts) (split-free b'.' c (label-IsFree c (ground arith)))))
    ∙ ground arith

-- Any three labels that dots join, such as those of a host name, a version or an address's start, are
-- taken for a signed token and redacted as a whole.
pub safe_string-labels :
    (a b c : Text)
    → is_label a ≡ true
    → is_label b ≡ true
    → is_label c ≡ true
    → safe_string (a ++ b'.' ∷ (b ++ b'.' ∷ c)) ≡ redacted
unfolding safe_string
safe_string-labels a b c ha hb hc = ground (arith, is_jwt-labels a b c ha hb hc)
