-- ===== src/Strings.antt =====
-- What the program uses of Go's package strings, over texts as lists of code points.
pub mod Parts
pub mod Within
use remnanode_exporter.Prelude.{
  ℕ, ◌+◌, Bool, true, false, ◌&&◌, ◌||◌, Option, none, some, List, [], ◌∷◌, map, leb, ◌==◌,
  if◌then◌else◌, Text,
}

-- strings.HasPrefix
unfoldable pub has_prefix : Text → Text → Bool
has_prefix s [] = true
has_prefix [] (d ∷ t) = false
has_prefix (c ∷ s) (d ∷ t) = c == d && has_prefix s t

-- strings.Contains
unfoldable pub contains : Text → Text → Bool
unfolding has_prefix
contains [] t = has_prefix [] t
contains (c ∷ s) t = has_prefix (c ∷ s) t || contains s t

-- strings.Split at a separator of one character: the current part is put before the first part of
-- the rest. There is always at least one part.
unfoldable pub on_head : (Text → Text) → List Text → List Text
on_head f [] = f [] ∷ []
on_head f (p ∷ ps) = f p ∷ ps

unfoldable pub split : ℕ → Text → List Text
unfolding on_head
split sep [] = [] ∷ []
split sep (c ∷ s) =
    let parts = split sep s in if c == sep then [] ∷ parts else on_head (λ p. c ∷ p) parts

-- strings.Cut at a separator of one character; `none` is `found == false`
unfoldable pub cut : ℕ → Text → Option (Text × Text)
cut sep [] = none
cut sep (c ∷ s) = elim (cut sep s) [
  | none ↦ if c == sep then some ([], s) else none
  | some (a, b) ↦ if c == sep then some ([], s) else some (c ∷ a, b)
]

-- unicode.IsSpace
unfoldable pub is_space : ℕ → Bool
is_space c =
    leb 9 c && leb c 13
    || c == 32
    || c == 0x85
    || c == 0xa0
    || c == 0x1680
    || leb 0x2000 c && leb c 0x200a
    || c == 0x2028
    || c == 0x2029
    || c == 0x202f
    || c == 0x205f
    || c == 0x3000

unfoldable pub trim_left : (ℕ → Bool) → Text → Text
trim_left p [] = []
trim_left p (c ∷ s) = if p c then trim_left p s else c ∷ s

-- a character goes when everything behind it goes and it passes the test
unfoldable pub trim_right : (ℕ → Bool) → Text → Text
trim_right p [] = []
trim_right p (c ∷ s) = elim (trim_right p s) [ [] ↦ if p c then [] else c ∷ [] | d ∷ t ↦ c ∷ d ∷ t ]

-- strings.TrimSpace
unfoldable pub trim_space : Text → Text
unfolding trim_left trim_right is_space
trim_space s = trim_right is_space (trim_left is_space s)

-- strings.TrimPrefix
unfoldable pub drop_prefix : Text → Text → Text
drop_prefix s [] = s
drop_prefix [] (d ∷ t) = []
drop_prefix (c ∷ s) (d ∷ t) = drop_prefix s t

unfoldable pub trim_prefix : Text → Text → Text
unfolding has_prefix drop_prefix
trim_prefix s t = if has_prefix s t then drop_prefix s t else s

-- strings.ToLower; `fold` is unicode.ToLower, which is used beyond ASCII only
unfoldable pub lower_rune : (ℕ → ℕ) → ℕ → ℕ
lower_rune fold c = if leb 128 c then fold c else if leb b'A' c && leb c b'Z' then c + 32 else c

unfoldable pub to_lower : (ℕ → ℕ) → Text → Text
unfolding lower_rune
to_lower fold s = map (lower_rune fold) s
