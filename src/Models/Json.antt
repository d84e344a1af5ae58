-- ===== src/Models/Json.antt =====
-- json.Unmarshal of encoding/json into an int64 and into a bool, as internal/models uses it.
-- Bytes are lists of numbers. `none` is an error; the literal `null` leaves the zero value.
pub mod Integers
use transmogr.Base.{
  ℕ, String, ◌++◌, ◌/◌, ◌%◌, zero, suc, ◌+◌, ◌*◌, ◌-◌, ◌^◌, ◌≡◌, refl, Bool, true, false, ◌&&◌,
  ◌||◌, Option, none, some, List, [], ◌∷◌, ltb, leb, nat_beq, if◌then◌else◌, ◌==◌, list_eq, nat_eq,
}
use mathlib.Core.List.{reverse}
use transmogr.Base.Int.{ℤ, pos, negsuc}
use transmogr.Base.Text.{codes}

abbrev pub Bytes : Type 0
Bytes = List ℕ

-- space, tab, line feed, carriage return
unfoldable pub is_space : ℕ → Bool
is_space c = nat_beq c 32 || nat_beq c 9 || nat_beq c 10 || nat_beq c 13

unfoldable pub skip_space : Bytes → Bytes
unfolding is_space
skip_space [] = []
skip_space (c ∷ cs) = let rest = skip_space cs in if is_space c then rest else c ∷ cs

unfoldable pub trim : Bytes → Bytes
unfolding skip_space
trim s = reverse (skip_space (reverse (skip_space s)))

unfoldable pub digits : ℕ → Bytes → Option ℕ
digits n [] = some n
digits n (c ∷ cs) =
    let rest = digits (n * 10 + (c - 48)) cs in if leb 48 c && leb c 57 then rest else none

-- No leading zero, and at least one digit.
unfoldable pub natural : Bytes → Option ℕ
unfolding digits
natural [] = none
natural (c ∷ []) = digits 0 (c ∷ [])
natural (c ∷ d ∷ cs) = if nat_beq c 48 then none else digits 0 (c ∷ d ∷ cs)

-- The range of an int64.
unfoldable pub non_negative : Option ℕ → Option ℤ
non_negative none = none
non_negative (some n) = if ltb n (2 ^ 63) then some (pos n) else none

unfoldable pub negative : Option ℕ → Option ℤ
negative none = none
negative (some zero) = some (pos 0)
negative (some (suc n)) = if ltb n (2 ^ 63) then some (negsuc n) else none

unfoldable pub number : Bytes → Option ℤ
unfolding natural non_negative negative
number [] = none
number (c ∷ cs) = if nat_beq c b'-' then negative (natural cs) else non_negative (natural (c ∷ cs))

unfoldable pub unmarshal_int64 : Bytes → Option ℤ
unfolding trim number
unmarshal_int64 raw = let s = trim raw in if s == codes "null" then some (pos 0) else number s

unfoldable pub unmarshal_bool : Bytes → Option Bool
unfolding trim
unmarshal_bool raw =
    let s = trim raw in
    if s == codes "true"
    then some true
    else if s == codes "false" || s == codes "null"
    then some false
    else none

-- json.Marshal of a string, by the code points of the text: the escapes of encoding/json.
hex_digit : ℕ → ℕ
hex_digit n = if ltb n 10 then 48 + n else 87 + n

escape : ℕ → Bytes
unfolding hex_digit
escape c =
    if nat_beq c b'"' || nat_beq c 92
    then 92 ∷ c ∷ []
    else if nat_beq c 8
    then 92 ∷ b'b' ∷ []
    else if nat_beq c 12
    then 92 ∷ b'f' ∷ []
    else if nat_beq c 10
    then 92 ∷ b'n' ∷ []
    else if nat_beq c 13
    then 92 ∷ b'r' ∷ []
    else if nat_beq c 9
    then 92 ∷ b't' ∷ []
    else if ltb c 32 || nat_beq c b'<' || nat_beq c b'>' || nat_beq c b'&'
    then 92 ∷ b'u' ∷ 48 ∷ 48 ∷ hex_digit (c / 16) ∷ hex_digit (c % 16) ∷ []
    else if nat_beq c 0x2028
    then codes "\\u2028"
    else if nat_beq c 0x2029
    then codes "\\u2029"
    else c ∷ []

escape_all : Bytes → Bytes
unfolding escape
escape_all [] = []
escape_all (c ∷ cs) = escape c ++ escape_all cs

unfoldable pub json_string : String → Bytes
unfolding escape_all
json_string s = b'"' ∷ (escape_all (codes s) ++ b'"' ∷ [])

json_string_runs : json_string "a\"<" ≡ codes "\"a\\\"\\u003c\""
unfolding json_string
json_string_runs = refl

unmarshal_int64_runs : unmarshal_int64 (codes " -12 ") ≡ some (negsuc 11)
unfolding unmarshal_int64
unmarshal_int64_runs = refl

unmarshal_int64_fails : unmarshal_int64 (codes "012") ≡ none
unfolding unmarshal_int64
unmarshal_int64_fails = refl
