-- ===== src/Text/Spaces.antt =====
-- Trimming: what it leaves alone, and that it lengthens nothing.
use Prim.Native.Char.{Char, code}
use blackcat_darkmesh_gatewa.Text.{
  trim, trim_start, trim_end, keep_before, is_space, has_space, chars, all_chars,
}
use blackcat_darkmesh_gatewa.Base.{
  ℕ, suc, ◌≤◌, ◌≡◌, refl, ap, ◌∙◌, inl, inr, String, Bool, true, false, ◌&&◌, ◌||◌, arith,
  Bool-cases,
}

chars-trim_start-le : (s : String) → chars (trim_start s) ≤ chars s
unfolding trim_start chars
chars-trim_start-le String.[] = omega arith
chars-trim_start-le (String.◌∷◌ c s) = elim (Bool-cases (is_space (code c))) [
  | inl e ↦ rw e (omega (arith, chars-trim_start-le s))
  | inr e ↦ rw e (omega arith)
]

chars-keep_before-le : (c : Char) (s : String) → chars (keep_before c s) ≤ suc (chars s)
unfolding chars
chars-keep_before-le c String.[] = elim (Bool-cases (is_space (code c))) [
  | inl e ↦ rw e (omega arith)
  | inr e ↦ rw e (omega arith)
]
chars-keep_before-le c (String.◌∷◌ d s) = omega arith

chars-trim_end-le : (s : String) → chars (trim_end s) ≤ chars s
unfolding trim_end chars
chars-trim_end-le String.[] = omega arith
chars-trim_end-le (String.◌∷◌ c s) =
    omega (arith, chars-keep_before-le c (trim_end s), chars-trim_end-le s)

pub chars-trim-le : (s : String) → chars (trim s) ≤ chars s
unfolding trim
chars-trim-le s = omega (arith, chars-trim_end-le (trim_start s), chars-trim_start-le s)

no_space_head : (a b : Bool) → (a || b) ≡ false → (a ≡ false) × (b ≡ false)
no_space_head a b h = ground arith

trim_start_id : (s : String) → has_space s ≡ false → trim_start s ≡ s
unfolding trim_start has_space
trim_start_id String.[] h = refl
trim_start_id (String.◌∷◌ c s) h =
    let e : is_space (code c) ≡ false = (no_space_head (is_space (code c)) (has_space s) h).0 in
    rw e

keep_before_id :
    (c : Char) (s : String) → is_space (code c) ≡ false → keep_before c s ≡ String.◌∷◌ c s
keep_before_id c String.[] h = rw h
keep_before_id c (String.◌∷◌ d s) h = refl

trim_end_id : (s : String) → has_space s ≡ false → trim_end s ≡ s
unfolding trim_end has_space
trim_end_id String.[] h = refl
trim_end_id (String.◌∷◌ c s) h =
    let e : trim_end s ≡ s = trim_end_id s (no_space_head (is_space (code c)) (has_space s) h).1 in
    rw e (keep_before_id c s (no_space_head (is_space (code c)) (has_space s) h).0)

-- A text without white space stays as it is.
pub trim_id : (s : String) → has_space s ≡ false → trim s ≡ s
unfolding trim
trim_id s h = rw (trim_start_id s h) (trim_end_id s h)

both_true : (a b : Bool) → (a && b) ≡ true → (a ≡ true) × (b ≡ true)
both_true a b h = ground arith

-- A text of characters that pass a test, none of which is white space.
pub all_chars-spaceless :
    (t : ℕ → Bool)
    → ((c : ℕ) → t c ≡ true → is_space c ≡ false)
    → (s : String) → all_chars t s ≡ true
    → has_space s ≡ false
unfolding all_chars has_space
all_chars-spaceless t h String.[] e = refl
all_chars-spaceless t h (String.◌∷◌ c s) e =
    rw (h (code c) (both_true (t (code c)) (all_chars t s) e).0)
      (all_chars-spaceless t h s (both_true (t (code c)) (all_chars t s) e).1)

trim_end-keep_before :
    (c : Char) (s : String) → trim_end s ≡ s → trim_end (keep_before c s) ≡ keep_before c s
unfolding trim_end
trim_end-keep_before c String.[] h = elim (Bool-cases (is_space (code c))) [
  | inl e ↦ rw e refl
  | inr e ↦ rw (e, e) refl
]
trim_end-keep_before c (String.◌∷◌ d s) h = ap (keep_before c) h

trim_end-trim_end : (s : String) → trim_end (trim_end s) ≡ trim_end s
unfolding trim_end
trim_end-trim_end String.[] = refl
trim_end-trim_end (String.◌∷◌ c s) = trim_end-keep_before c (trim_end s) (trim_end-trim_end s)

-- Trimming the end leaves the beginning as it is.
trim_start-keep_before :
    (c : Char) (s : String)
    → is_space (code c) ≡ false
    → trim_start (keep_before c s) ≡ keep_before c s
unfolding trim_start
trim_start-keep_before c String.[] e = rw (e, e) refl
trim_start-keep_before c (String.◌∷◌ d s) e = rw e refl

trim_start-trim : (s : String) → trim_start (trim s) ≡ trim s
unfolding trim trim_start
trim_start-trim String.[] = refl
trim_start-trim (String.◌∷◌ c s) = elim (Bool-cases (is_space (code c))) [
  | inl e ↦ rw e (trim_start-trim s)
  | inr e ↦ rw e (trim_start-keep_before c (trim_end s) e)
]

pub trim-trim : (s : String) → trim (trim s) ≡ trim s
unfolding trim
trim-trim s = ap trim_end (trim_start-trim s) ∙ trimmed s
  where
    trimmed : (s : String) → trim_end (trim s) ≡ trim s
    trimmed s = unfold trim in trim_end-trim_end (trim_start s)
