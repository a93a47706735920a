-- ===== src/Text/Letters.antt =====
-- Lower case and prefixes without regard to case.
use Prim.Native.Char.{Char, code}
use blackcat_darkmesh_gatewa.Text.{lower_char, swapped, to_lower, strip_prefix_ignore_case, chars}
use blackcat_darkmesh_gatewa.Base.{
  ◌+◌, ◌≡◌, refl, ap, ◌⊎◌, inl, inr, String, some, arith, ◌==◌, option_map, Bool-cases,
}

abbrev AllChars : (Char → Type 0) → String → Type 0
AllChars P String.[] = Unit
AllChars P (String.◌∷◌ c s) = P c × AllChars P s

-- What stands in for a character is the character or comes from the second text.
swapped-cases :
    (P : Char → Type 0) (c : Char) (s t : String)
    → AllChars P t
    → (swapped c s t ≡ c) ⊎ P (swapped c s t)
unfolding swapped
swapped-cases P c String.[] t h = inl refl
swapped-cases P c (String.◌∷◌ d s) String.[] h = inl refl
swapped-cases P c (String.◌∷◌ d s) (String.◌∷◌ e t) h = elim (Bool-cases (code c == code d)) [
  | inl same ↦ rw same (inr h.0)
  | inr other ↦ rw other (swapped-cases P c s t h.1)
]

abbrev IsLower : Char → Type 0
IsLower c = lower_char c ≡ c

letters-IsLower : AllChars IsLower "abcdefghijklmnopqrstuvwxyz"
unfolding lower_char swapped
letters-IsLower = ground arith

lower_char-cases : (c : Char) → (lower_char c ≡ c) ⊎ IsLower (lower_char c)
unfolding lower_char
lower_char-cases c =
    swapped-cases IsLower c "ABCDEFGHIJKLMNOPQRSTUVWXYZ" "abcdefghijklmnopqrstuvwxyz"
      letters-IsLower

pub lower_char-lower_char : (c : Char) → lower_char (lower_char c) ≡ lower_char c
lower_char-lower_char c = elim (lower_char-cases c) [ inl e ↦ ap lower_char e | inr e ↦ e ]

pub to_lower-to_lower : (s : String) → to_lower (to_lower s) ≡ to_lower s
unfolding to_lower
to_lower-to_lower String.[] = refl
to_lower-to_lower (String.◌∷◌ c s) = rw (lower_char-lower_char c) (rw (to_lower-to_lower s))

pub strip_prefix-to_lower :
    (p s : String)
    → strip_prefix_ignore_case p (to_lower s) ≡ option_map to_lower (strip_prefix_ignore_case p s)
unfolding strip_prefix_ignore_case to_lower
strip_prefix-to_lower String.[] s = refl
strip_prefix-to_lower (String.◌∷◌ p ps) String.[] = refl
strip_prefix-to_lower (String.◌∷◌ p ps) (String.◌∷◌ c s) =
    rw (lower_char-lower_char c) (ground (arith, strip_prefix-to_lower ps s))

pub chars-strip_prefix :
    (p s rest : String) → strip_prefix_ignore_case p s ≡ some rest → chars p + chars rest ≡ chars s
unfolding strip_prefix_ignore_case chars
chars-strip_prefix String.[] s rest h = ground arith
chars-strip_prefix (String.◌∷◌ p ps) String.[] rest h = cc
chars-strip_prefix (String.◌∷◌ p ps) (String.◌∷◌ c s) rest h =
    ground (arith, chars-strip_prefix ps s rest)
