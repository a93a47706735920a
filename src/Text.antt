-- ===== src/Text.antt =====
-- What the sources use of the language's strings: `trim`, `split` by one character, the parts
-- before and after a character, `toLowerCase` on ASCII letters (other characters stay), the digits
-- of `Number.parseInt`. Positions count characters; the sources only compare them.
pub mod Letters
pub mod Spaces
use Prim.Native.Char.{Char, code}
use blackcat_darkmesh_gatewa.Base.{
  false, true, ℕ, suc, ◌+◌, ◌-◌, ◌*◌, String, Bool, ◌&&◌, ◌||◌, Option, none, some, List, [], ◌∷◌,
  leb, ◌==◌, if◌then◌else◌, or_else, ◌===◌,
}

-- The character at the place of the second text where the first one has `c`, or `c` itself.
swapped : Char → String → String → Char
swapped c (String.◌∷◌ d s) (String.◌∷◌ e t) =
    let rest = swapped c s t in if code c == code d then e else rest
swapped c _ _ = c

-- A letter in the lower case, any other character as it is.
unfoldable pub lower_char : Char → Char
unfolding swapped
lower_char c = swapped c "ABCDEFGHIJKLMNOPQRSTUVWXYZ" "abcdefghijklmnopqrstuvwxyz"

-- `s.toLowerCase()` where all letters are ASCII.
unfoldable pub to_lower : String → String
unfolding lower_char
to_lower String.[] = String.[]
to_lower (String.◌∷◌ c s) = String.◌∷◌ (lower_char c) (to_lower s)

-- `/^prefix/i` for a prefix of lower-case letters: what is behind it.
unfoldable pub strip_prefix_ignore_case : String → String → Option String
unfolding lower_char
strip_prefix_ignore_case String.[] s = some s
strip_prefix_ignore_case (String.◌∷◌ p ps) String.[] = none
strip_prefix_ignore_case (String.◌∷◌ p ps) (String.◌∷◌ c s) =
    let rest = strip_prefix_ignore_case ps s in if code (lower_char c) == code p then rest else none

-- `s.replace(/x$/, '')` for one character: the last character goes if it is that one.
unfoldable pub drop_last : ℕ → String → String
drop_last last String.[] = String.[]
drop_last last (String.◌∷◌ c String.[]) =
    if code c == last then String.[] else String.◌∷◌ c String.[]
drop_last last (String.◌∷◌ c (String.◌∷◌ d s)) = String.◌∷◌ c (drop_last last (String.◌∷◌ d s))

-- White space and line ends of the language.
abbrev pub is_space : ℕ → Bool
is_space c =
    (leb 9 c && leb c 13)
    || c == 32
    || c == 160
    || c == 0x1680
    || (leb 0x2000 c && leb c 0x200a)
    || c == 0x2028
    || c == 0x2029
    || c == 0x202f
    || c == 0x205f
    || c == 0x3000
    || c == 0xfeff

unfoldable pub trim_start : String → String
trim_start String.[] = String.[]
trim_start (String.◌∷◌ c s) =
    let rest = trim_start s in if is_space (code c) then rest else String.◌∷◌ c s

-- The character before what is left, if anything is left or the character is no white space.
abbrev keep_before : Char → String → String
keep_before c String.[] = if is_space (code c) then String.[] else String.◌∷◌ c String.[]
keep_before c (String.◌∷◌ d s) = String.◌∷◌ c (String.◌∷◌ d s)

unfoldable pub trim_end : String → String
trim_end String.[] = String.[]
trim_end (String.◌∷◌ c s) = keep_before c (trim_end s)

unfoldable pub trim : String → String
unfolding trim_start trim_end
trim s = trim_end (trim_start s)

-- The text before the first such character and the text behind it.
unfoldable pub cut : ℕ → String → Option (String × String)
cut sep String.[] = none
cut sep (String.◌∷◌ c s) =
    let rest = cut sep s in
    if code c == sep
    then some (String.[], s)
    else elim rest [ none ↦ none | some (before, behind) ↦ some (String.◌∷◌ c before, behind) ]

abbrev pub grow : Char → List String → List String
grow c [] = String.◌∷◌ c String.[] ∷ []
grow c (part ∷ parts) = String.◌∷◌ c part ∷ parts

-- `s.split(sep)` for one character.
unfoldable pub split : ℕ → String → List String
split sep String.[] = String.[] ∷ []
split sep (String.◌∷◌ c s) =
    let parts = split sep s in if code c == sep then String.[] ∷ parts else grow c parts

abbrev pub is_digit : ℕ → Bool
is_digit c = leb b'0' c && leb c b'9'

-- The number that the leading digits spell; `none` for no digit.
unfoldable pub leading_digits : Option ℕ → String → Option ℕ
leading_digits seen String.[] = seen
leading_digits seen (String.◌∷◌ c s) =
    let rest = leading_digits (some (or_else seen 0 * 10 + (code c - 48))) s in
    if is_digit (code c) then rest else seen

-- `Number.parseInt(s, 10)` where only a positive result is used: a minus sign gives `none`.
abbrev unsigned : String → String
unsigned String.[] = String.[]
unsigned (String.◌∷◌ c s) = if code c == b'+' then s else String.◌∷◌ c s

unfoldable pub parse_positive : String → Option ℕ
unfolding leading_digits trim_start
parse_positive s = leading_digits none (unsigned (trim_start s))

-- `/\s/.test(s)`
unfoldable pub has_space : String → Bool
has_space String.[] = false
has_space (String.◌∷◌ c s) = is_space (code c) || has_space s

unfoldable pub all_chars : (ℕ → Bool) → String → Bool
all_chars test String.[] = true
all_chars test (String.◌∷◌ c s) = let rest = all_chars test s in test (code c) && rest

-- `s.startsWith(prefix)`
unfoldable pub starts_with : String → String → Bool
starts_with String.[] s = true
starts_with (String.◌∷◌ p ps) String.[] = false
starts_with (String.◌∷◌ p ps) (String.◌∷◌ c s) =
    let rest = starts_with ps s in code c == code p && rest

-- What is behind the prefix, where the text starts with it.
unfoldable pub strip_prefix : String → String → Option String
strip_prefix String.[] s = some s
strip_prefix (String.◌∷◌ p ps) String.[] = none
strip_prefix (String.◌∷◌ p ps) (String.◌∷◌ c s) =
    let rest = strip_prefix ps s in if code c == code p then rest else none

-- `s.includes(part)` for a part that is not empty.
unfoldable pub includes_text : String → String → Bool
unfolding starts_with
includes_text part String.[] = false
includes_text part (String.◌∷◌ c s) =
    let rest = includes_text part s in starts_with part (String.◌∷◌ c s) || rest

-- `s.endsWith(last)` for one character.
unfoldable pub ends_with : ℕ → String → Bool
ends_with last String.[] = false
ends_with last (String.◌∷◌ c String.[]) = code c == last
ends_with last (String.◌∷◌ c (String.◌∷◌ d s)) = ends_with last (String.◌∷◌ d s)

-- `s.replace(/x+$/, '')` for one character.
unfoldable pub drop_trailing : ℕ → String → String
drop_trailing last String.[] = String.[]
drop_trailing last (String.◌∷◌ c s) =
    let rest = drop_trailing last s in
    if rest === "" && code c == last then String.[] else String.◌∷◌ c rest

-- The number of characters.
unfoldable pub chars : String → ℕ
chars String.[] = 0
chars (String.◌∷◌ c s) = suc (chars s)
