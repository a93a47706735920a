-- ===== src/RouteAssertions/Domains/Hosts.antt =====
-- The names that the checks leave: what their labels say about the whole text.
use Prim.Native.Char.{Char, code}
use blackcat_darkmesh_gatewa.Text.{
  split, grow, is_space, has_space, all_chars, includes_text, starts_with, ends_with, drop_trailing,
  chars,
}
use blackcat_darkmesh_gatewa.RouteAssertions.Domains.{is_label_char, is_label, all_labels}
use blackcat_darkmesh_gatewa.Base.{
  ℕ, ◌≡◌, refl, sym, ap, ◌∙◌, inl, inr, String, Bool, true, false, ◌&&◌, ◌||◌, not, List, [], ◌∷◌,
  ◌===◌, eq_iff, arith, leb, ◌==◌, Bool-cases,
}

all_parts : (String → Bool) → List String → Bool
all_parts test [] = true
all_parts test (part ∷ parts) = test part && all_parts test parts

is_filled : String → Bool
is_filled s = not (s === "")

label-parts : (a b c d e : Bool) → (a && b && c && d && e) ≡ true → (a ≡ true) × (c ≡ true)
label-parts a b c d e h = ground arith

is_label-chars : (s : String) → is_label s ≡ true → all_chars is_label_char s ≡ true
unfolding is_label
is_label-chars s h =
    (label-parts (not (s === "")) (leb (chars s) 63) (all_chars is_label_char s)
      (not (starts_with "-" s)) (not (ends_with b'-' s)) h).1

is_label-filled : (s : String) → is_label s ≡ true → is_filled s ≡ true
unfolding is_label is_filled
is_label-filled s h =
    (label-parts (not (s === "")) (leb (chars s) 63) (all_chars is_label_char s)
      (not (starts_with "-" s)) (not (ends_with b'-' s)) h).0

labels-chars :
    (parts : List String)
    → all_labels parts ≡ true
    → all_parts (all_chars is_label_char) parts ≡ true
unfolding all_labels all_parts
labels-chars [] h = refl
labels-chars (s ∷ parts) h = ground (arith, is_label-chars s, labels-chars parts)

labels-filled : (parts : List String) → all_labels parts ≡ true → all_parts is_filled parts ≡ true
unfolding all_labels all_parts
labels-filled [] h = refl
labels-filled (s ∷ parts) h = ground (arith, is_label-filled s, labels-filled parts)

-- The characters of a name: those of labels, and dots.
abbrev pub is_host_char : ℕ → Bool
is_host_char c = c == b'.' || is_label_char c

grow-chars :
    (t : ℕ → Bool) (c : Char) (parts : List String)
    → all_parts (all_chars t) (grow c parts) ≡ true
    → (t (code c) ≡ true) × (all_parts (all_chars t) parts ≡ true)
unfolding all_parts all_chars
grow-chars t c [] h = ground arith
grow-chars t c (p ∷ parts) h = ground arith

split-sep :
    (sep : ℕ) (c : Char) (s : String)
    → code c == sep ≡ true
    → split sep (String.◌∷◌ c s) ≡ "" ∷ split sep s
unfolding split
split-sep sep c s h = rw h refl

split-other :
    (sep : ℕ) (c : Char) (s : String)
    → code c == sep ≡ false
    → split sep (String.◌∷◌ c s) ≡ grow c (split sep s)
unfolding split
split-other sep c s h = rw h refl

and_true : (a b : Bool) → a ≡ true → b ≡ true → (a && b) ≡ true
and_true a b h k = ground arith

split-chars :
    (s : String)
    → all_parts (all_chars is_label_char) (split b'.' s) ≡ true
    → all_chars is_host_char s ≡ true
unfolding all_chars
split-chars String.[] h = refl
split-chars (String.◌∷◌ c s) h = elim (Bool-cases (code c == b'.')) [
  | inl dot ↦ rw dot (
      split-chars s (
        tail_parts s (ap (all_parts (all_chars is_label_char)) (sym (split-sep b'.' c s dot)) ∙ h)))
  | inr other ↦
      let (label, rest) =
        grow-chars is_label_char c (split b'.' s)
          (ap (all_parts (all_chars is_label_char)) (sym (split-other b'.' c s other)) ∙ h) in
      and_true (is_host_char (code c)) (all_chars is_host_char s) (rw (label, other) refl)
        (split-chars s rest)
]
  where
    tail_parts :
        (s : String)
        → all_parts (all_chars is_label_char) ("" ∷ split b'.' s) ≡ true
        → all_parts (all_chars is_label_char) (split b'.' s) ≡ true
    tail_parts s k = unfold all_parts in k

-- The parts behind the first one.
behind : List String → List String
behind [] = []
behind (part ∷ parts) = parts

behind-grow : (c : Char) (parts : List String) → behind (grow c parts) ≡ behind parts
unfolding behind
behind-grow c [] = refl
behind-grow c (p ∷ parts) = refl

all-behind :
    (t : String → Bool) (parts : List String)
    → all_parts t parts ≡ true
    → all_parts t (behind parts) ≡ true
unfolding behind all_parts
all-behind t [] h = refl
all-behind t (p ∷ parts) h = ground arith

pub cons_filled : (c : Char) (s : String) → (String.◌∷◌ c s === "") ≡ false
cons_filled c s = elim (Bool-cases (String.◌∷◌ c s === "")) [
  | inl e ↦ absurd (clash ((eq_iff (String.◌∷◌ c s) "").0 e))
  | inr e ↦ e
]
  where
    clash : String.◌∷◌ c s ≡ "" → ⊥
    clash e = cc

filled-split : (s : String) → all_parts is_filled (split b'.' s) ≡ true → (s === "") ≡ false
unfolding all_parts is_filled split
filled-split String.[] h = cc
filled-split (String.◌∷◌ c s) h = cons_filled c s

drop-split :
    (s : String) → all_parts is_filled (behind (split b'.' s)) ≡ true → drop_trailing b'.' s ≡ s
unfolding drop_trailing behind
drop-split String.[] h = refl
drop-split (String.◌∷◌ c s) h = elim (Bool-cases (code c == b'.')) [
  | inl dot ↦
      let rest : all_parts is_filled (split b'.' s) ≡ true =
        ap (λ parts. all_parts is_filled (behind parts)) (sym (split-sep b'.' c s dot)) ∙ h in
      rw (drop-split s (all-behind is_filled (split b'.' s) rest), filled-split s rest) refl
  | inr other ↦
      let rest : all_parts is_filled (behind (split b'.' s)) ≡ true =
        ap (all_parts is_filled) (sym (behind-grow c (split b'.' s)))
        ∙ (ap (λ parts. all_parts is_filled (behind parts)) (sym (split-other b'.' c s other))
            ∙ h) in
      rw (drop-split s rest) (ground arith)
]

-- A name of good labels has no other characters, and no dot at its end.
pub all_labels-chars :
    (s : String) → all_labels (split b'.' s) ≡ true → all_chars is_host_char s ≡ true
all_labels-chars s h = split-chars s (labels-chars (split b'.' s) h)

pub all_labels-drop : (s : String) → all_labels (split b'.' s) ≡ true → drop_trailing b'.' s ≡ s
all_labels-drop s h =
    drop-split s (all-behind is_filled (split b'.' s) (labels-filled (split b'.' s) h))

host_char-space : (c : ℕ) → is_host_char c ≡ true → is_space c ≡ false
host_char-space c h = ground arith

and_parts : (a b : Bool) → (a && b) ≡ true → (a ≡ true) × (b ≡ true)
and_parts a b h = ground arith

or_false : (a b : Bool) → a ≡ false → b ≡ false → (a || b) ≡ false
or_false a b h k = ground arith

pub host_chars-space : (s : String) → all_chars is_host_char s ≡ true → has_space s ≡ false
unfolding all_chars has_space
host_chars-space String.[] h = refl
host_chars-space (String.◌∷◌ c s) h =
    let (now, rest) = and_parts (is_host_char (code c)) (all_chars is_host_char s) h in
    or_false (is_space (code c)) (has_space s) (host_char-space (code c) now)
      (host_chars-space s rest)

other_char : (t : ℕ → Bool) (c p : ℕ) → t c ≡ true → t p ≡ false → c == p ≡ false
other_char t c p h k = elim (Bool-cases (c == p)) [
  | inl e ↦ let same : c ≡ p = ground arith in absurd (clash (sym (ap t same ∙ k) ∙ h))
  | inr e ↦ e
]
  where
    clash : false ≡ true → ⊥
    clash e = cc

-- A text whose characters pass a test includes no text that begins with one that does not.
pub all_chars-includes_text :
    (t : ℕ → Bool) (p : Char) (ps s : String)
    → all_chars t s ≡ true
    → t (code p) ≡ false
    → includes_text (String.◌∷◌ p ps) s ≡ false
unfolding all_chars includes_text
all_chars-includes_text t p ps String.[] h k = refl
all_chars-includes_text t p ps (String.◌∷◌ c s) h k =
    let (now, rest) = and_parts (t (code c)) (all_chars t s) h in
    rw (other_char t (code c) (code p) now k, all_chars-includes_text t p ps s rest k) refl
