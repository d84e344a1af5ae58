-- ===== src/Models/PrimaryKey/Order.antt =====
-- The order of primary keys is a total preorder, where the values decode at their types.
use transmogr.Base.{
  ℕ, ◌≡◌, refl, sym, ◌∙◌, Bool, true, false, Option, none, some, [], ◌∷◌, arith, All, if◌then◌else◌,
  ◌==◌, string_eq, beq→eq, Bool-cases, inl, inr,
}
use transmogr.Base.Int.{ℤ, pos}
use transmogr.Base.Order.{
  Ordering, Lawful, Lawful-on, Lawful-then, Lawful-weaken, Lawful-ext, cmp_refl, Any, cmp_ℤ,
  cmp_ℤ-Lawful, cmp_ℕ, cmp_ℕ-Lawful, then_cmp, cmp_lists, cmp_lists-Lawful,
}
use transmogr.Base.Text.{cmp_str, cmp_str-Lawful, cmp_str-eq, compare_bytes, compare_bytes-Lawful}
use transmogr.Models.Json.{Bytes, unmarshal_int64, unmarshal_bool}
use transmogr.Models.PrimaryKey.{
  PrimaryKeyPart, PrimaryKey, or_bytes, cmp_bool, integer_type, boolean_type, compare_integer_json,
  compare_bool_json, compare_primary_key_value, compare_primary_key_part, compare_primary_keys,
}

-- A value that is typed as an integer or a boolean decodes as one.
pub record IsDecodable (p : PrimaryKeyPart) : Type 0 where
  pub integer : p.key_type ≡ integer_type → (z : ℤ) × (unmarshal_int64 p.value ≡ some z)
  pub boolean : p.key_type ≡ boolean_type → (b : Bool) × (unmarshal_bool p.value ≡ some b)

int_or_zero : Option ℤ → ℤ
int_or_zero none = pos 0
int_or_zero (some z) = z

rank : Option Bool → ℕ
rank (some true) = 1
rank (some false) = 0
rank none = 0

-- The three keys by which a part is ordered within its column and type.
int_key : PrimaryKeyPart → ℤ
int_key p = if p.key_type == integer_type then int_or_zero (unmarshal_int64 p.value) else pos 0

bool_key : PrimaryKeyPart → ℕ
bool_key p = if p.key_type == boolean_type then rank (unmarshal_bool p.value) else 0

bytes_key : PrimaryKeyPart → Bytes
bytes_key p =
    if p.key_type == integer_type then [] else if p.key_type == boolean_type then [] else p.value

cmp_keys : PrimaryKeyPart → PrimaryKeyPart → Ordering
cmp_keys l r = then_cmp (cmp_str l.column r.column) (
    then_cmp (cmp_str l.key_type r.key_type) (
      then_cmp (cmp_ℤ (int_key l) (int_key r))
        (then_cmp (cmp_ℕ (bool_key l) (bool_key r)) (compare_bytes (bytes_key l) (bytes_key r)))))

cmp_keys-Lawful : Lawful Any cmp_keys
unfolding cmp_keys
cmp_keys-Lawful =
    Lawful-then Any _ _ (Lawful-on Any cmp_str (λ (p : PrimaryKeyPart). p.column) cmp_str-Lawful) (
      Lawful-then Any _ _
        (Lawful-on Any cmp_str (λ (p : PrimaryKeyPart). p.key_type) cmp_str-Lawful)
        (Lawful-then Any _ _ (Lawful-on Any cmp_ℤ int_key cmp_ℤ-Lawful) (
          Lawful-then Any _ _ (Lawful-on Any cmp_ℕ bool_key cmp_ℕ-Lawful)
            (Lawful-on Any compare_bytes bytes_key compare_bytes-Lawful))))

value_cmp : PrimaryKeyPart → PrimaryKeyPart → Ordering
value_cmp l r =
    (then_cmp (cmp_ℤ (int_key l) (int_key r))
      (then_cmp (cmp_ℕ (bool_key l) (bool_key r)) (compare_bytes (bytes_key l) (bytes_key r))))

cmp_bool-rank :
    (a b : Bool) (x y : Bytes)
    → or_bytes cmp_bool (some a) (some b) x y ≡ cmp_ℕ (rank (some a)) (rank (some b))
unfolding or_bytes cmp_bool cmp_ℕ rank
cmp_bool-rank a b x y = ground arith

-- Values of one type are ordered by their three keys.
module _ (l r : PrimaryKeyPart) where
  integer_case :
      (z w : ℤ)
      → (l.key_type == integer_type) ≡ true
      → (r.key_type == integer_type) ≡ true
      → (l.key_type == boolean_type) ≡ false
      → (r.key_type == boolean_type) ≡ false
      → unmarshal_int64 l.value ≡ some z
      → unmarshal_int64 r.value ≡ some w
      → compare_primary_key_value l.key_type l.value r.value ≡ value_cmp l r
  unfolding compare_primary_key_value compare_integer_json or_bytes value_cmp int_key bool_key
      bytes_key int_or_zero cmp_ℕ
  integer_case z w el er nl nr d e =
      rw (el, er, nl, nr, d, e, cmp_refl compare_bytes-Lawful [] tt) (ground arith)

  boolean_case :
      (a b : Bool)
      → (l.key_type == integer_type) ≡ false
      → (r.key_type == integer_type) ≡ false
      → (l.key_type == boolean_type) ≡ true
      → (r.key_type == boolean_type) ≡ true
      → unmarshal_bool l.value ≡ some a
      → unmarshal_bool r.value ≡ some b
      → compare_primary_key_value l.key_type l.value r.value ≡ value_cmp l r
  unfolding compare_primary_key_value compare_bool_json value_cmp int_key bool_key bytes_key cmp_ℤ
  boolean_case a b el er nl nr d e =
      rw (el, er, nl, nr, d, e, cmp_refl compare_bytes-Lawful [] tt)
        (ground (arith, cmp_bool-rank a b l.value r.value))

  other_case :
      (l.key_type == integer_type) ≡ false
      → (r.key_type == integer_type) ≡ false
      → (l.key_type == boolean_type) ≡ false
      → (r.key_type == boolean_type) ≡ false
      → compare_primary_key_value l.key_type l.value r.value ≡ value_cmp l r
  unfolding compare_primary_key_value value_cmp int_key bool_key bytes_key cmp_ℤ cmp_ℕ
  other_case el er nl nr = rw (el, er, nl, nr)

value-value_cmp :
    (l r : PrimaryKeyPart)
    → IsDecodable l
    → IsDecodable r
    → l.key_type ≡ r.key_type
    → compare_primary_key_value l.key_type l.value r.value ≡ value_cmp l r
value-value_cmp l r p q e = elim (Bool-cases (l.key_type == integer_type)) [
  | inl el ↦
      let same = beq→eq l.key_type integer_type el in
      let z = p.integer same in
      let w = q.integer (sym e ∙ same) in
      integer_case l r z.0 w.0 el (rw e at el) (rw same) (rw (sym e ∙ same)) z.1 w.1
  | inr nl ↦ elim (Bool-cases (l.key_type == boolean_type)) [
    | inl el ↦
        let same = beq→eq l.key_type boolean_type el in
        let a = p.boolean same in
        let b = q.boolean (sym e ∙ same) in
        boolean_case l r a.0 b.0 nl (rw e at nl) el (rw e at el) a.1 b.1
    | inr ml ↦ other_case l r nl (rw e at nl) ml (rw e at ml)
  ]
]

abbrev pub AllDecodable : PrimaryKey → Type 0
AllDecodable = All IsDecodable

part-cmp_keys :
    (l r : PrimaryKeyPart)
    → IsDecodable l
    → IsDecodable r
    → compare_primary_key_part l r ≡ cmp_keys l r
unfolding compare_primary_key_part cmp_keys value_cmp
part-cmp_keys l r p q = ground (arith, cmp_str-eq l.key_type r.key_type, value-value_cmp l r p q)

part-Lawful : Lawful IsDecodable compare_primary_key_part
part-Lawful =
    Lawful-ext IsDecodable compare_primary_key_part cmp_keys part-cmp_keys
      (Lawful-weaken Any IsDecodable cmp_keys (λ p _. tt) cmp_keys-Lawful)

keys-cmp_lists :
    (ls rs : PrimaryKey) → compare_primary_keys ls rs ≡ cmp_lists compare_primary_key_part ls rs
unfolding compare_primary_keys cmp_lists
keys-cmp_lists [] [] = refl
keys-cmp_lists [] (r ∷ rs) = refl
keys-cmp_lists (l ∷ ls) [] = refl
keys-cmp_lists (l ∷ ls) (r ∷ rs) = ground (arith, keys-cmp_lists ls rs)

-- On keys whose typed values decode, `compare_primary_keys` is a total preorder: swapping its
-- arguments flips the result, `lt` is transitive, and keys that compare equal compare alike to any
-- third key.
pub compare_primary_keys-Lawful : Lawful AllDecodable compare_primary_keys
compare_primary_keys-Lawful =
    Lawful-ext AllDecodable compare_primary_keys (cmp_lists compare_primary_key_part)
      (λ ls rs _ _. keys-cmp_lists ls rs)
      (cmp_lists-Lawful IsDecodable compare_primary_key_part part-Lawful)
