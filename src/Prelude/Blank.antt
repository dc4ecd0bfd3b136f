-- ===== src/Prelude/Blank.antt =====
-- A text that `strip` leaves something of.
use mathlib.Core.Path.{◌≡◌, refl, ap, ◌∙◌}
use mathlib.Core.Bool.{true, false, ◌||◌}
use mathlib.Core.List.{[], ◌∷◌, ◌++◌, reverse, reverse-cons}
use native.Mathlib.Omega.{arith}
use soloscale_ai_os.Prelude.Text.{Text, has_ink, strip_left, strip, is_empty}

ink-append : (s t : Text) → has_ink (s ++ t) ≡ has_ink s || has_ink t
ink-append [] t = refl
ink-append (c ∷ s) t = ground (arith, ink-append s t)

ink-reverse : (s : Text) → has_ink (reverse s) ≡ has_ink s
ink-reverse [] = refl
ink-reverse (c ∷ s) =
    ap has_ink (reverse-cons c s) ∙ ink-append (reverse s) (c ∷ []) ∙ ground (arith, ink-reverse s)

ink-strip_left : (s : Text) → is_empty (strip_left s) ≡ false → has_ink (strip_left s) ≡ true
unfolding strip_left
ink-strip_left [] h = ground arith
ink-strip_left (c ∷ s) h = ground (arith, ink-strip_left s)

filled-reverse : (s : Text) → is_empty (reverse s) ≡ false → is_empty s ≡ false
filled-reverse [] h = h
filled-reverse (c ∷ s) h = refl

strip_left-ink : (s : Text) → has_ink (strip_left s) ≡ has_ink s
unfolding strip_left
strip_left-ink [] = refl
strip_left-ink (c ∷ s) = ground (arith, strip_left-ink s)

pub strip-ink : (s : Text) → has_ink (strip s) ≡ has_ink s
unfolding strip
strip-ink s =
    ink-reverse (strip_left (reverse (strip_left s)))
    ∙ strip_left-ink (reverse (strip_left s))
    ∙ ink-reverse (strip_left s)
    ∙ strip_left-ink s

-- What is left of it is more than spaces.
pub has_ink-strip : (s : Text) → is_empty (strip s) ≡ false → has_ink (strip s) ≡ true
unfolding strip
has_ink-strip s h =
    let rest = strip_left (reverse (strip_left s)) in
    ink-reverse rest ∙ ink-strip_left (reverse (strip_left s)) (filled-reverse rest h)
