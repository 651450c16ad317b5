-- ===== src/Asm/Text.antt =====
-- fox32asm/src/main.rs: the texts that the parser turns into numbers and names, with the functions of
-- Rust's standard library that it calls for that.
use Prim.Native.String.{String}
use Prim.Native.Char.{code}
use text.Mathlib.Text.{◌==◌ as same_text}
use fox.Prelude.{
  ℕ, ◌+◌, ◌-◌, ◌*◌, ◌%◌, ◌^◌, Bool, ◌||◌, ◌&&◌, ltb, leb, ◌==◌, Option, none, some, List, [], ◌∷◌,
  if◌then◌else◌,
}
use fox.Outcome.{Outcome, done, panic, ◌>>=◌, bad_number, unsupported, register_out_of_range}

-- `text.chars()`, by their code points.
abbrev pub chars : String → List ℕ
chars String.[] = []
chars (String.◌∷◌ c s) = code c ∷ chars s

-- `remove_underscores(input)`
unfoldable pub remove_underscores : List ℕ → List ℕ
remove_underscores [] = []
remove_underscores (c ∷ cs) =
    let rest = remove_underscores cs in if c == b'_' then rest else c ∷ rest

-- `char::to_digit`, before the comparison with the radix.
abbrev pub digit_value : ℕ → ℕ
digit_value c =
    if leb b'0' c && leb c b'9'
    then c - b'0'
    else if leb b'a' c && leb c b'z'
    then c - b'a' + 10
    else if leb b'A' c && leb c b'Z'
    then c - b'A' + 10
    else 36

-- The digits, with the checked multiplication and addition below `bound`.
unfoldable pub digits : (bound radix acc : ℕ) → List ℕ → Option ℕ
digits bound radix acc [] = some acc
digits bound radix acc (c ∷ cs) =
    let next = acc * radix + digit_value c in
    let rest = digits bound radix next cs in
    if ltb (digit_value c) radix && ltb next bound then rest else none

-- `u32::from_str_radix` and `parse`, with the bound of the type: no empty text, one leading `+`.
unfoldable pub from_str_radix : (bound radix : ℕ) → List ℕ → Option ℕ
unfolding digits
from_str_radix bound radix [] = none
from_str_radix bound radix (c ∷ []) = digits bound radix 0 (c ∷ [])
from_str_radix bound radix (c ∷ d ∷ cs) =
    if c == b'+' then digits bound radix 0 (d ∷ cs) else digits bound radix 0 (c ∷ d ∷ cs)

abbrev pub unwrap_number : Option ℕ → Outcome ℕ
unwrap_number none = panic bad_number
unwrap_number (some n) = done n

-- A `match` on a text, whose last arm panics.
unfoldable pub match_text {ℓ} : {A : Type ℓ} → String → List (String × A) → Outcome A
match_text text [] = panic unsupported
match_text text ((name, a) ∷ arms) =
    let rest = match_text text arms in if same_text text name then done a else rest

-- `u32::from_str_radix(&remove_underscores(body), radix).unwrap()`
unfoldable pub parse_number : (radix : ℕ) → String → Outcome ℕ
unfolding remove_underscores from_str_radix
parse_number radix body =
    unwrap_number (from_str_radix (2 ^ 32) radix (remove_underscores (chars body)))

-- `body.chars().nth(0).unwrap() as u8 as u32`
unfoldable pub first_char : List ℕ → Outcome ℕ
first_char [] = panic bad_number
first_char (c ∷ cs) = done (c % 2 ^ 8)

-- The number of a register, `sp` as 32.
unfoldable pub register_number : String → Outcome ℕ
unfolding from_str_radix
register_number text = do
  n ←
      if same_text text "sp"
      then done 32
      else unwrap_number (from_str_radix (2 ^ 8) 10 (chars text))
  if ltb 32 n then panic register_out_of_range else done n

-- `text.trim()`: white space as Unicode has it.
abbrev is_whitespace : ℕ → Bool
is_whitespace c =
    (leb 9 c && leb c 13)
    || c == 0x20
    || c == 0x85
    || c == 0xA0
    || c == 0x1680
    || (leb 0x2000 c && leb c 0x200A)
    || c == 0x2028
    || c == 0x2029
    || c == 0x202F
    || c == 0x205F
    || c == 0x3000

unfoldable pub trim_start : List ℕ → List ℕ
trim_start [] = []
trim_start (c ∷ cs) = let rest = trim_start cs in if is_whitespace c then rest else c ∷ cs

trim_behind : ℕ → List ℕ → List ℕ
trim_behind c [] = if is_whitespace c then [] else c ∷ []
trim_behind c (d ∷ ds) = c ∷ d ∷ ds

unfoldable pub trim_end : List ℕ → List ℕ
unfolding trim_behind
trim_end [] = []
trim_end (c ∷ cs) = trim_behind c (trim_end cs)

abbrev pub trim : List ℕ → List ℕ
trim cs = trim_end (trim_start cs)
