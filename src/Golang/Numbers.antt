-- ===== src/Golang/Numbers.antt =====
-- Package strconv: Atoi and ParseInt in base 10 on a 64-bit machine, ParseBool, ParseUint in base
-- 16 and Itoa, with the text of their errors; `quote` is strconv.Quote.
use Prim.Native.Char.{Char, code}
use Prim.Native.String.{[], ◌∷◌, ◌++◌}
use Prim.Native.Nat.{◌*◌}
use rw_node_go.Common.{
  ℕ, zero, suc, ◌+◌, ◌-◌, ℤ, pos, negsuc, Bool, true, false, ◌&&◌, ◌||◌, String, nat_eq, ltb, leb,
  if◌then◌else◌, Option, none, some, ◌==◌, Result, ok, err,
}

-- 2 ^ 63 and 2 ^ 64
abbrev pub int_limit : ℕ
int_limit = 9223372036854775808

abbrev pub uint_limit : ℕ
uint_limit = 18446744073709551616

abbrev pub is_digit : Char → Bool
is_digit c = leb 48 (code c) && leb (code c) 57

-- How ParseUint ends: with a number, at a character that is no digit, or past the limit.
pub data Scan : Type 0 where
  read : ℕ → Scan
  malformed : Scan
  too_large : Scan

-- The value of digits after a number, which stops at the first fault.
unfoldable pub digits : ℕ → String → Scan
digits n [] = read n
digits n (c ∷ s) =
    let next = 10 * n + (code c - 48) in
    let rest = digits next s in
    if is_digit c then (if ltb next uint_limit then rest else too_large) else malformed

-- One digit at least.
unfoldable pub number : String → Scan
unfolding digits
number [] = malformed
number (c ∷ s) = digits 0 (c ∷ s)

abbrev pub syntax_error : (String → String) → String → String → String
syntax_error quote func s = "strconv." ++ func ++ ": parsing " ++ quote s ++ ": invalid syntax"

abbrev pub range_error : (String → String) → String → String → String
range_error quote func s = "strconv." ++ func ++ ": parsing " ++ quote s ++ ": value out of range"

-- The limits of int64, by the sign.
unfoldable pub positive : Scan → String → String → Result ℤ
positive malformed syntax range = err syntax
positive too_large syntax range = err range
positive (read n) syntax range = if ltb n int_limit then ok (pos n) else err range

unfoldable pub negative : Scan → String → String → Result ℤ
negative malformed syntax range = err syntax
negative too_large syntax range = err range
negative (read zero) syntax range = ok (pos 0)
negative (read (suc n)) syntax range = if ltb n int_limit then ok (negsuc n) else err range

-- Atoi and ParseInt(s, 10, 64), which differ in the name that an error has.
unfoldable pub parse_int : (String → String) → String → String → Result ℤ
unfolding positive negative number
parse_int quote func [] = err (syntax_error quote func [])
parse_int quote func (c ∷ s) =
    let syntax = syntax_error quote func (c ∷ s) in
    let range = range_error quote func (c ∷ s) in
    if nat_eq (code c) 45
    then negative (number s) syntax range
    else if nat_eq (code c) 43
    then positive (number s) syntax range
    else positive (number (c ∷ s)) syntax range

-- strconv.ParseBool
unfoldable pub parse_bool : (String → String) → String → Result Bool
parse_bool quote s =
    if s == "1" || s == "t" || s == "T" || s == "true" || s == "TRUE" || s == "True"
    then ok true
    else if s == "0" || s == "f" || s == "F" || s == "false" || s == "FALSE" || s == "False"
    then ok false
    else err (syntax_error quote "ParseBool" s)

-- The value of a hexadecimal digit.
abbrev pub hex_digit : Char → Option ℕ
hex_digit c =
    if is_digit c
    then some (code c - 48)
    else if leb 97 (code c) && leb (code c) 102
    then some (code c - 87)
    else if leb 65 (code c) && leb (code c) 70
    then some (code c - 55)
    else none

abbrev pub append_digit : ℕ → Option ℕ → Option ℕ
append_digit n none = none
append_digit n (some d) = some (16 * n + d)

unfoldable pub hex_digits : Option ℕ → String → Option ℕ
hex_digits value [] = value
hex_digits none (c ∷ s) = none
hex_digits (some n) (c ∷ s) = hex_digits (append_digit n (hex_digit c)) s

abbrev pub below_limit : Option ℕ → Option ℕ
below_limit none = none
below_limit (some n) = if ltb n uint_limit then some n else none

-- ParseUint(s, 16, 64): `none` where it fails.
unfoldable pub parse_hex : String → Option ℕ
unfolding hex_digits
parse_hex [] = none
parse_hex (c ∷ s) = below_limit (hex_digits (some 0) (c ∷ s))
