-- ===== src/Base/TextLaws.antt =====
-- `strings.TrimSpace` twice is `strings.TrimSpace` once.
use Prim.Native.String.{String, [], ◌∷◌}
use mathlib.Core.Path.{◌≡◌, refl, ap, ◌∙◌}
use mathlib.Core.Bool.{false}
use Prim.Native.Char.{Char, code}
use deciscope_api.Base.Tests.{if◌then◌else◌, if-case}
use deciscope_api.Base.Text.{trim, trim_left, trim_right, push_kept, is_space}

-- No white space comes first.
IsFlush : String → Type 0
IsFlush [] = Unit
IsFlush (c ∷ s) = is_space (code c) ≡ false

trim_left-IsFlush : (s : String) → IsFlush (trim_left s)
unfolding trim_left IsFlush
trim_left-IsFlush [] = tt
trim_left-IsFlush (c ∷ s) =
    if-case IsFlush (is_space (code c)) _ _ (λ _. trim_left-IsFlush s) (λ e. e)

push_kept-fixed :
    (c : Char) (s : String) → trim_right s ≡ s → trim_right (push_kept c s) ≡ push_kept c s
unfolding trim_right push_kept
push_kept-fixed c [] h =
    if-case (λ t. trim_right t ≡ t) (is_space (code c)) [] (c ∷ []) (λ _. refl)
      (λ e. ap (λ b. if b then [] else c ∷ []) e)
push_kept-fixed c (d ∷ s) h = ap (push_kept c) h

trim_right-twice : (s : String) → trim_right (trim_right s) ≡ trim_right s
unfolding trim_right
trim_right-twice [] = refl
trim_right-twice (c ∷ s) = push_kept-fixed c (trim_right s) (trim_right-twice s)

flush-trim_left : (s : String) → IsFlush s → trim_left s ≡ s
unfolding trim_left IsFlush
flush-trim_left [] h = refl
flush-trim_left (c ∷ s) h = ap (λ b. if b then trim_left s else c ∷ s) h

push_kept-IsFlush : (c : Char) (s : String) → is_space (code c) ≡ false → IsFlush (push_kept c s)
unfolding push_kept IsFlush
push_kept-IsFlush c [] h = if-case IsFlush (is_space (code c)) [] (c ∷ []) (λ _. tt) (λ e. e)
push_kept-IsFlush c (d ∷ s) h = h

trim_right-IsFlush : (s : String) → IsFlush s → IsFlush (trim_right s)
unfolding trim_right IsFlush
trim_right-IsFlush [] h = tt
trim_right-IsFlush (c ∷ s) h = push_kept-IsFlush c (trim_right s) h

pub trim-twice : (s : String) → trim (trim s) ≡ trim s
unfolding trim
trim-twice s =
    ap trim_right (
      flush-trim_left (trim_right (trim_left s))
        (trim_right-IsFlush (trim_left s) (trim_left-IsFlush s)))
    ∙ trim_right-twice (trim_left s)
