-- ===== src/Prelude/Text.antt =====
-- Python's `str` as the list of its code points, where the program walks a text: `isspace`,
-- `strip`, and the lines that iterating over a text file yields.
use Prim.Native.Nat.{ℕ}
use Prim.Native.Char.{code}
use Prim.Native.String.{String}
use mathlib.Core.Path.{◌≡◌, refl}
use mathlib.Core.Bool.{Bool, true, false, not, ◌&&◌, ◌||◌}
use mathlib.Core.List.{List, [], ◌∷◌, ◌++◌, reverse}
use soloscale_ai_os.Prelude.Lists.{any}
use soloscale_ai_os.Prelude.Tests.{leb, ◌==◌, if◌then◌else◌}

abbrev pub Text : Type 0
Text = List ℕ

abbrev pub codes : String → Text
codes String.[] = []
codes (String.◌∷◌ c s) = code c ∷ codes s

abbrev pub between : ℕ → ℕ → ℕ → Bool
between a b c = leb a c && leb c b

-- `str.isspace` of one character
unfoldable pub is_space : ℕ → Bool
is_space c =
    between 9 13 c
    || between 28 32 c
    || c == 133
    || c == 160
    || c == 5760
    || between 8192 8202 c
    || c == 8232
    || c == 8233
    || c == 8239
    || c == 8287
    || c == 12288

unfoldable pub strip_left : Text → Text
strip_left [] = []
strip_left (c ∷ s) = let rest = strip_left s in if is_space c then rest else c ∷ s

-- `s.strip()`
unfoldable pub strip : Text → Text
unfolding strip_left is_space
strip s = reverse (strip_left (reverse (strip_left s)))

-- a character of the text is no space
abbrev pub has_ink : Text → Bool
has_ink s = any (λ c. not (is_space c)) s

-- `not s`
abbrev pub is_empty : Text → Bool
is_empty [] = true
is_empty (c ∷ s) = false

unfoldable pub text_eq : Text → Text → Bool
text_eq [] [] = true
text_eq (a ∷ s) (b ∷ t) = a == b && text_eq s t
text_eq _ _ = false

-- `s.startswith(start)`
unfoldable pub starts_with : Text → Text → Bool
starts_with start [] = is_empty start
starts_with [] (c ∷ s) = true
starts_with (a ∷ start) (c ∷ s) = a == c && starts_with start s

-- `needle in s`
unfoldable pub occurs_in : Text → Text → Bool
unfolding starts_with
occurs_in needle [] = is_empty needle
occurs_in needle (c ∷ s) = starts_with needle (c ∷ s) || occurs_in needle s

-- a character in front of text that has been split into words; whether it goes on the first word
abbrev put_char : ℕ → Bool → List Text → List Text
put_char c true (w ∷ ws) = (c ∷ w) ∷ ws
put_char c _ ws = (c ∷ []) ∷ ws

abbrev starts_in_word : Text → Bool
starts_in_word [] = false
starts_in_word (c ∷ s) = not (is_space c)

-- `s.split()`
unfoldable pub split : Text → List Text
unfolding is_space
split [] = []
split (c ∷ s) =
    let rest = split s in if is_space c then rest else put_char c (starts_in_word s) rest

-- `" ".join(words)`
unfoldable pub join_words : List Text → Text
join_words [] = []
join_words (w ∷ []) = w
join_words (w ∷ v ∷ ws) = w ++ 32 ∷ join_words (v ∷ ws)

-- `" ".join(s.split())`
unfoldable pub squeeze : Text → Text
unfolding split join_words
squeeze s = join_words (split s)

-- `s.split(maxsplit=1)[0]`, empty where Python finds no word
unfoldable pub first_word : Text → Text
unfolding split
first_word s = elim (split s) [ [] ↦ [] | w ∷ ws ↦ w ]

strip_both_ends : strip (codes "  a b ") ≡ codes "a b"
unfolding strip
strip_both_ends = refl

strip_blank : strip (codes "   ") ≡ []
unfolding strip
strip_blank = refl

squeeze_lines : squeeze (codes "  route \n the  plan ") ≡ codes "route the plan"
unfolding squeeze
squeeze_lines = refl

occurs_in_both :
    (occurs_in (codes "edi") (codes "linkedin") ≡ true)
    × (occurs_in (codes "deploy") (codes "plan") ≡ false)
unfolding occurs_in
occurs_in_both = (refl, refl)
