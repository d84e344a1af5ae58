-- ===== src/Models/Json/Integers.antt =====
-- json.Marshal of an int64 and of a bool, and what json.Unmarshal makes of the result.
use mathlib.Core.Path.{subst}
use mathlib.Core.List.{reverse, reverse-cons, reverse-reverse}
use transmogr.Base.{
  ℕ, zero, suc, ◌+◌, ◌/◌, ◌%◌, ◌^◌, ◌≤◌, ◌<◌, ◌≡◌, ◌⊎◌, refl, sym, ap, ◌∙◌, Bool, true, false, some,
  [], ◌∷◌, arith, ltb, nat_beq, if◌then◌else◌, ◌==◌, list_eq, nat_eq, All, All-append, Bool-cases,
  inl, inr,
}
use transmogr.Base.Int.{ℤ, pos, negsuc}
use transmogr.Base.Text.{codes}
use transmogr.Models.Json.{
  Bytes, is_space, skip_space, trim, digits, natural, number, negative, non_negative,
  unmarshal_int64, unmarshal_bool,
}

-- The decimal digits of a number, in front of those in `acc`.
unfoldable pub decimal_onto : ℕ → ℕ → Bytes → Bytes
decimal_onto zero n acc = acc
decimal_onto (suc fuel) n acc =
    let rest = decimal_onto fuel (n / 10) ((48 + n % 10) ∷ acc) in
    if ltb n 10 then (48 + n) ∷ acc else rest

unfoldable pub decimal : ℕ → Bytes
unfolding decimal_onto
decimal n = decimal_onto (suc n) n []

unfoldable pub json_int64 : ℤ → Bytes
unfolding decimal
json_int64 (pos n) = decimal n
json_int64 (negsuc n) = b'-' ∷ decimal (suc n)

unfoldable pub json_bool : Bool → Bytes
json_bool true = codes "true"
json_bool false = codes "false"

abbrev pub IsInt64 : ℤ → Type 0
IsInt64 (pos n) = n < 2 ^ 63
IsInt64 (negsuc n) = n < 2 ^ 63

IsDigit : ℕ → Type 0
IsDigit c = (48 ≤ c) × (c ≤ 57)

-- Reading the digits gives the number back.
digits-decimal_onto :
    (fuel n : ℕ) (acc : Bytes) → n < fuel → digits 0 (decimal_onto fuel n acc) ≡ digits n acc
unfolding digits decimal_onto
digits-decimal_onto zero n acc h = absurd (omega (arith, h))
digits-decimal_onto (suc fuel) n acc h =
    ground (arith, digits-decimal_onto fuel (n / 10) ((48 + n % 10) ∷ acc))

-- No leading zero before another digit.
IsLeading : Bytes → Type 0
IsLeading [] = ⊥
IsLeading (c ∷ []) = Unit
IsLeading (c ∷ d ∷ cs) = nat_beq c 48 ≡ false

natural-digits : (s : Bytes) → IsLeading s → natural s ≡ digits 0 s
unfolding natural IsLeading
natural-digits [] h = absurd h
natural-digits (c ∷ []) h = refl
natural-digits (c ∷ d ∷ cs) h = rw h refl

one_digit : (n : ℕ) (acc : Bytes) → (0 < n) ⊎ (acc ≡ []) → IsLeading ((48 + n) ∷ acc)
unfolding IsLeading
one_digit n [] h = tt
one_digit n (d ∷ ds) (inl h) = ground (arith, h)
one_digit n (d ∷ ds) (inr e) = cc

decimal_onto-IsLeading :
    (fuel n : ℕ) (acc : Bytes)
    → n < fuel
    → (0 < n) ⊎ (acc ≡ [])
    → IsLeading (decimal_onto fuel n acc)
unfolding decimal_onto
decimal_onto-IsLeading zero n acc h p = absurd (omega (arith, h))
decimal_onto-IsLeading (suc fuel) n acc h p = elim (Bool-cases (ltb n 10)) [
  | inl e ↦ rw e (one_digit n acc p)
  | inr e ↦ rw e (
      decimal_onto-IsLeading fuel (n / 10) ((48 + n % 10) ∷ acc) (ground (arith, h, e))
        (inl (ground (arith, e))))
]

natural-decimal : (n : ℕ) → natural (decimal n) ≡ some n
unfolding decimal digits
natural-decimal n =
    natural-digits (decimal n) (decimal_onto-IsLeading (suc n) n [] (omega arith) (inr refl))
    ∙ digits-decimal_onto (suc n) n [] (omega arith)

-- The bytes that are written, none of which is a space.
decimal_onto-digits :
    (fuel n : ℕ) (acc : Bytes) → All IsDigit acc → All IsDigit (decimal_onto fuel n acc)
unfolding decimal_onto IsDigit
decimal_onto-digits zero n acc h = h
decimal_onto-digits (suc fuel) n acc h = elim (Bool-cases (ltb n 10)) [
  | inl e ↦ rw e (ground (arith, e), h)
  | inr e ↦ rw e (decimal_onto-digits fuel (n / 10) ((48 + n % 10) ∷ acc) (omega arith, h))
]

AllSolid : Bytes → Type 0
AllSolid = All λ c. is_space c ≡ false

digits-AllSolid : (s : Bytes) → All IsDigit s → AllSolid s
unfolding IsDigit AllSolid is_space
digits-AllSolid [] h = tt
digits-AllSolid (c ∷ cs) h = (ground (arith, h.0), digits-AllSolid cs h.1)

skip-AllSolid : (s : Bytes) → AllSolid s → skip_space s ≡ s
unfolding skip_space AllSolid
skip-AllSolid [] h = refl
skip-AllSolid (c ∷ cs) h = rw h.0 refl

reverse-AllSolid : (s : Bytes) → AllSolid s → AllSolid (reverse s)
unfolding AllSolid
reverse-AllSolid [] h = tt
reverse-AllSolid (c ∷ cs) h =
    subst AllSolid (sym (reverse-cons c cs)) (
      All-append (λ x. is_space x ≡ false) (reverse cs) (c ∷ []) (reverse-AllSolid cs h.1)
        (h.0, tt))

trim-AllSolid : (s : Bytes) → AllSolid s → trim s ≡ s
unfolding trim
trim-AllSolid s h =
    ap (λ x. reverse (skip_space (reverse x))) (skip-AllSolid s h)
    ∙ ap reverse (skip-AllSolid (reverse s) (reverse-AllSolid s h))
    ∙ reverse-reverse s

digits-not_null : (s : Bytes) → All IsDigit s → (s == codes "null") ≡ false
unfolding IsDigit
digits-not_null [] h = refl
digits-not_null (c ∷ cs) h = ground (arith, h.0)

number-digits :
    (s : Bytes) (n : ℕ) → All IsDigit s → natural s ≡ some n → number s ≡ non_negative (some n)
unfolding number IsDigit
number-digits [] n h e = ground (arith, e)
number-digits (c ∷ cs) n h e = ground (arith, h.0, e)

decimal-digits : (n : ℕ) → All IsDigit (decimal n)
unfolding decimal
decimal-digits n = decimal_onto-digits (suc n) n [] tt

-- An int64 that is written as JSON reads back as itself.
pub unmarshal_int64-json_int64 : (z : ℤ) → IsInt64 z → unmarshal_int64 (json_int64 z) ≡ some z
unfolding unmarshal_int64 json_int64 non_negative negative number AllSolid
unmarshal_int64-json_int64 (pos n) h =
    rw
      (
        trim-AllSolid (decimal n) (digits-AllSolid (decimal n) (decimal-digits n)),
        digits-not_null (decimal n) (decimal-digits n),
        number-digits (decimal n) n (decimal-digits n) (natural-decimal n),
      )
      (ground (arith, h))
unmarshal_int64-json_int64 (negsuc n) h =
    rw
      (
        trim-AllSolid (b'-' ∷ decimal (suc n))
            (refl, digits-AllSolid (decimal (suc n)) (decimal-digits (suc n))),
        natural-decimal (suc n),
      )
      (ground (arith, h))

pub unmarshal_bool-json_bool : (b : Bool) → unmarshal_bool (json_bool b) ≡ some b
unfolding unmarshal_bool json_bool
unmarshal_bool-json_bool true = refl
unmarshal_bool-json_bool false = refl

json_int64_runs : json_int64 (negsuc 119) ≡ codes "-120"
unfolding json_int64
json_int64_runs = refl
