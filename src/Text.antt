-- ===== src/Text.antt =====
-- Python's `str` where the program looks into it: the list of its code points, with the methods
-- that the source calls. `lower` and `strip` treat ASCII, which is all that the program compares with.
use Prim.Native.Char.{code}
use Prim.Native.String.{String}
use costpilot.Prelude.{
  ℕ, ◌+◌, ◌-◌, ◌≡◌, refl, Bool, true, false, ◌&&◌, ◌||◌, List, [], ◌∷◌, leb, nat_beq, if◌then◌else◌,
  map, ◌==◌, ◌↔◌,
}
pub mod Laws

abbrev pub Text : Type 0
Text = List ℕ

-- The code points of a literal.
abbrev pub codes : String → Text
codes String.[] = []
codes (String.◌∷◌ c s) = code c ∷ codes s

unfoldable pub text_eq : Text → Text → Bool
text_eq [] [] = true
text_eq [] (y ∷ ys) = false
text_eq (x ∷ xs) [] = false
text_eq (x ∷ xs) (y ∷ ys) = nat_beq x y && text_eq xs ys

lower_char : ℕ → ℕ
lower_char c = if leb b'A' c && leb c b'Z' then c + 32 else c

-- `s.lower()`
unfoldable pub lower : Text → Text
unfolding lower_char
lower s = map lower_char s

upper_char : ℕ → ℕ
upper_char c = if leb b'a' c && leb c b'z' then c - 32 else c

-- `s.upper()`
unfoldable pub upper : Text → Text
unfolding upper_char
upper s = map upper_char s

-- `s.startswith(p)`
unfoldable pub starts_with : Text → Text → Bool
starts_with s [] = true
starts_with [] (p ∷ ps) = false
starts_with (c ∷ s) (p ∷ ps) = nat_beq c p && starts_with s ps

-- `p in s`
unfoldable pub contains : Text → Text → Bool
unfolding starts_with
contains [] p = starts_with [] p
contains (c ∷ s) p = starts_with (c ∷ s) p || contains s p

is_space : ℕ → Bool
is_space c = nat_beq c 32 || (leb 9 c && leb c 13)

lstrip : Text → Text
unfolding is_space
lstrip [] = []
lstrip (c ∷ s) = let rest = lstrip s in if is_space c then rest else c ∷ s

rstrip_keep : ℕ → Text → Text
unfolding is_space
rstrip_keep c [] = if is_space c then [] else c ∷ []
rstrip_keep c (d ∷ s) = c ∷ d ∷ s

rstrip : Text → Text
unfolding rstrip_keep
rstrip [] = []
rstrip (c ∷ s) = rstrip_keep c (rstrip s)

-- `s.strip()`
unfoldable pub strip : Text → Text
unfolding lstrip rstrip
strip s = rstrip (lstrip s)

-- `s.rstrip(c)` for one character
unfoldable pub rstrip_char : ℕ → Text → Text
rstrip_char sep [] = []
rstrip_char sep (c ∷ s) = elim (rstrip_char sep s) [
  | [] ↦ if nat_beq c sep then [] else c ∷ []
  | d ∷ r ↦ c ∷ d ∷ r
]

abbrev cons_part : ℕ → List Text → List Text
cons_part c [] = (c ∷ []) ∷ []
cons_part c (p ∷ ps) = (c ∷ p) ∷ ps

-- `s.split(sep)` at a separator of one character
unfoldable pub split : ℕ → Text → List Text
split sep [] = [] ∷ []
split sep (c ∷ s) = let rest = split sep s in if nat_beq c sep then [] ∷ rest else cons_part c rest

-- `x in xs`
unfoldable pub elem : Text → List Text → Bool
unfolding text_eq
elem x [] = false
elem x (y ∷ ys) = text_eq x y || elem x ys

split_ip : split b'.' (codes "10.0.3.7") ≡ codes "10" ∷ codes "0" ∷ codes "3" ∷ codes "7" ∷ []
unfolding split
split_ip = refl

strip_both : strip (codes "  ops team ") ≡ codes "ops team"
unfolding strip
strip_both = refl
