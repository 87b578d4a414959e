-- ===== src/Base/Text.antt =====
-- The part of Go's `strings` that the program uses, over the native text.
use Prim.Native.Nat.{ℕ, zero, suc, ◌-◌, ◌/◌, ◌%◌}
use Prim.Native.Char.{Char, code}
use Prim.Native.String.{String, [], ◌∷◌, ◌++◌, char_at, len, slice}
use mathlib.Core.Path.{◌≡◌}
use mathlib.Core.Bool.{Bool, true, false, ◌&&◌, ◌||◌}
use mathlib.Core.List.{List}
use text.Mathlib.Text.{◌==◌ as text_eq, starts_with}
use text.Mathlib.TextEquality.{eq_iff}
use deciscope_api.Base.Tests.{ltb, leb, ◌==◌, if◌then◌else◌}

abbrev pub str_eq : String → String → Bool
str_eq = text_eq

pub str_eq_self : (s : String) → str_eq s s ≡ true
str_eq_self s = (eq_iff s s).1 (λ i. s)

-- `unicode.IsSpace`
unfoldable pub is_space : ℕ → Bool
is_space c =
    (leb 9 c && leb c 13)
    || c == 32
    || c == 0x85
    || c == 0xA0
    || c == 0x1680
    || (leb 0x2000 c && leb c 0x200a)
    || c == 0x2028
    || c == 0x2029
    || c == 0x202f
    || c == 0x205f
    || c == 0x3000

abbrev pub is_blank : String → Bool
is_blank s = str_eq s ""

unfoldable pub trim_left : String → String
unfolding is_space
trim_left [] = []
trim_left (c ∷ s) = let rest = trim_left s in if is_space (code c) then rest else c ∷ s

unfoldable pub push_kept : Char → String → String
unfolding is_space
push_kept c [] = if is_space (code c) then [] else c ∷ []
push_kept c (d ∷ s) = c ∷ d ∷ s

unfoldable pub trim_right : String → String
unfolding push_kept
trim_right [] = []
trim_right (c ∷ s) = push_kept c (trim_right s)

-- `strings.TrimSpace`
unfoldable pub trim : String → String
unfolding trim_left trim_right
trim s = trim_right (trim_left s)

-- `unicode.ToLower` on ASCII and on the two runes outside it whose lower case is ASCII.
lower_rune : Char → Char
lower_rune c =
    if leb 65 (code c) && leb (code c) 90
    then char_at "abcdefghijklmnopqrstuvwxyz" (code c - 65)
    else if code c == 0x130
    then "i"
    else if code c == 0x212A
    then "k"
    else c

-- `strings.ToLower` on the letters that `lower_rune` knows; other capital letters stay as they are.
unfoldable pub to_lower : String → String
unfolding lower_rune
to_lower [] = []
to_lower (c ∷ s) = lower_rune c ∷ to_lower s

-- `strings.Contains`
contains : String → String → Bool
contains [] m = starts_with [] m
contains (c ∷ s) m = starts_with (c ∷ s) m || contains s m

-- A loop over markers that returns at the first one that the text contains.
unfoldable pub contains_any : String → List String → Bool
unfolding contains
contains_any s List.[] = false
contains_any s (List.◌∷◌ m ms) = contains s m || contains_any s ms

-- `if len(s) > n { s = s[:n] }` in bytes, without the part of a rune at the end
unfoldable pub truncate : ℕ → String → String
truncate n s = if ltb n (len s) then slice s 0 n else s

abbrev pub concat : String → String → String
concat s t = s ++ t

-- `strings.Join`
unfoldable pub join : String → List String → String
join sep List.[] = ""
join sep (List.◌∷◌ s List.[]) = s
join sep (List.◌∷◌ s (List.◌∷◌ t ts)) = s ++ sep ++ join sep (List.◌∷◌ t ts)

-- `strings.HasPrefix`
abbrev pub has_prefix : String → String → Bool
has_prefix = starts_with

fold_rune : Char → Char
fold_rune c =
    if leb 65 (code c) && leb (code c) 90
    then char_at "abcdefghijklmnopqrstuvwxyz" (code c - 65)
    else if code c == 0x17F
    then "s"
    else if code c == 0x212A
    then "k"
    else c

fold_case : String → String
unfolding fold_rune
fold_case [] = []
fold_case (c ∷ s) = fold_rune c ∷ fold_case s

-- `strings.EqualFold` against a text of ASCII letters.
unfoldable pub equal_fold : String → String → Bool
unfolding fold_case
equal_fold s t = str_eq (fold_case s) (fold_case t)

-- The first `n` runes.
unfoldable pub take_runes : ℕ → String → String
take_runes zero s = []
take_runes (suc n) [] = []
take_runes (suc n) (c ∷ s) = c ∷ take_runes n s

-- `len([]rune(s))`
unfoldable pub rune_count : String → ℕ
rune_count [] = 0
rune_count (c ∷ s) = suc (rune_count s)

digits : ℕ → ℕ → String
digits zero n = []
digits (suc fuel) n =
    let last = char_at "0123456789" (n % 10) in
    let rest = digits fuel (n / 10) in if ltb n 10 then last ∷ [] else rest ++ last ∷ []

-- `fmt.Sprintf("%d", n)`; a number has at most as many digits as its value plus one.
unfoldable pub decimal : ℕ → String
unfolding digits
decimal n = digits (suc n) n

-- `strings.Map` with a function that drops some runes.
unfoldable pub filter_runes : (Char → Bool) → (Char → Char) → String → String
filter_runes drop change [] = []
filter_runes drop change (c ∷ s) =
    let rest = filter_runes drop change s in if drop c then rest else change c ∷ rest
