-- ===== src/Json.antt =====
-- Values of JSON and the two functions that print them with sorted keys, each in its child:
-- src/runtime/core/canonicalJson.ts, and stableStringify of the secrets worker. Numbers are whole and
-- below 10^21, where `JSON.stringify` prints their digits; texts hold no lone surrogates. A value that
-- holds itself, functions, symbols and big integers are left out.
pub mod Keys
pub mod Canonical
pub mod Stable
pub mod Agreement
mod Tests
use Prim.Native.Char.{Char, code}
use Prim.Native.String.{◌++◌ as ◌+++◌}
use blackcat_darkmesh_gatewa.Base.{
  ℕ, zero, suc, ◌+◌, ◌-◌, ◌*◌, ◌/◌, ◌%◌, ◌^◌, ◌≤◌, ◌<◌, min, max, ◌≡◌, refl, sym, ap, ◌∙◌, subst,
  ◌≢◌, ◌↔◌, ◌⊎◌, inl, inr, String, Bool, true, false, ◌&&◌, ◌||◌, not, Option, none, some, List, [],
  ◌∷◌, ◌++◌, map, ◌===◌, eq_iff, eq_refl, arith, ltb, leb, ◌==◌, if◌then◌else◌, is_some, or_else,
  option_map, Bool-cases, Option-cases, length, length-append, All, All-append, Any, leb→le, le→leb,
  ltb→lt, lt→ltb,
}

-- `negative n` is -(n + 1).
pub data Number : Type 0 where
  whole : ℕ → Number
  negative : ℕ → Number
  not_finite : Number

-- `hole` is an index that an array lacks; `non_plain` an object with another prototype, with its own keys.
mutual
  pub data Json : Type 0 where
    null : Json
    undefined : Json
    bool : Bool → Json
    num : Number → Json
    text : String → Json
    arr : Items → Json
    obj : Fields → Json
    non_plain : Fields → Json

  pub data Items : Type 0 where
    nil : Items
    cons : Json → Items → Items
    hole : Items → Items

  pub data Fields : Type 0 where
    end : Fields
    field : String → Json → Fields → Fields

-- The digit of a number below sixteen.
abbrev digit : ℕ → String → Char
digit n String.[] = "0"
digit zero (String.◌∷◌ c s) = c
digit (suc n) (String.◌∷◌ c s) = digit n s

abbrev hex_digit : ℕ → Char
hex_digit n = digit n "0123456789abcdef"

unfoldable pub digits : ℕ → ℕ → String → String
digits zero n acc = acc
digits (suc fuel) n acc =
    let rest = digits fuel (n / 10) (String.◌∷◌ (hex_digit (n % 10)) acc) in
    if ltb n 10 then String.◌∷◌ (hex_digit n) acc else rest

-- Every division by ten takes one from the fuel and makes the number smaller.
unfoldable pub decimal : ℕ → String
unfolding digits
decimal n = digits (suc n) n ""

abbrev escape_control : ℕ → String
escape_control c =
    if c == 8
    then "\\b"
    else if c == 9
    then "\\t"
    else if c == 10
    then "\\n"
    else if c == 12
    then "\\f"
    else if c == 13
    then "\\r"
    else "\\u00" +++ String.◌∷◌ (hex_digit (c / 16)) (String.◌∷◌ (hex_digit (c % 16)) "")

unfoldable pub escape : String → String
escape String.[] = "\""
escape (String.◌∷◌ c s) =
    let rest = escape s in
    if code c == b'"'
    then "\\\"" +++ rest
    else if code c == 92
    then "\\\\" +++ rest
    else if ltb (code c) 32
    then escape_control (code c) +++ rest
    else String.◌∷◌ c rest

-- `JSON.stringify` of a text.
unfoldable pub quote : String → String
unfolding escape
quote s = "\"" +++ escape s

-- `JSON.stringify` of a number.
unfoldable pub number_text : Number → String
unfolding decimal
number_text (whole n) = decimal n
number_text (negative n) = "-" +++ decimal (suc n)
number_text not_finite = "null"

abbrev pub boolean_text : Bool → String
boolean_text true = "true"
boolean_text false = "false"

-- `parts.join(',')`
unfoldable pub join : List String → String
join [] = ""
join (part ∷ []) = part
join (part ∷ next ∷ parts) = part +++ ("," +++ join (next ∷ parts))
