-- ===== src/Models/PrimaryKey.antt =====
-- internal/models/primary_key.go: primary keys and their order. A Go int result below, at and above
-- zero is `lt`, `eq` and `gt`. The model has values and no aliasing, so the deep copies of
-- `ClonePrimaryKeyParts` are the values themselves.
pub mod Order
use transmogr.Base.{
  String, Bool, true, false, Option, none, some, List, [], ◌∷◌, if◌then◌else◌, ◌==◌, string_eq,
  Result, ok, err,
}
use transmogr.Base.Int.{ℤ}
use transmogr.Base.Order.{Ordering, cmp_ℤ, then_cmp}
use transmogr.Base.Tables.{Table}
use transmogr.Base.Text.{cmp_str, compare_bytes}
use transmogr.Models.Json.{Bytes, unmarshal_int64, unmarshal_bool}

-- A Go string type, so any text is a value of it.
abbrev pub PrimaryKeyType : Type 0
PrimaryKeyType = String

abbrev pub string_type : PrimaryKeyType
string_type = "string"

abbrev pub integer_type : PrimaryKeyType
integer_type = "integer"

abbrev pub boolean_type : PrimaryKeyType
boolean_type = "boolean"

pub record PrimaryKeyPart : Type 0 where
  pub column : String
  pub key_type : PrimaryKeyType
  pub value : Bytes

abbrev pub PrimaryKey : Type 0
PrimaryKey = List PrimaryKeyPart

-- `order decoded`, or the order of the bytes where one side does not decode.
or_bytes {ℓ} : {A : Type ℓ} → (A → A → Ordering) → Option A → Option A → Bytes → Bytes → Ordering
or_bytes order (some l) (some r) left right = order l r
or_bytes order (some l) none left right = compare_bytes left right
or_bytes order none r left right = compare_bytes left right

unfoldable pub compare_integer_json : Bytes → Bytes → Ordering
unfolding or_bytes
compare_integer_json left right =
    or_bytes cmp_ℤ (unmarshal_int64 left) (unmarshal_int64 right) left right

cmp_bool : Bool → Bool → Ordering
cmp_bool false false = Ordering.eq
cmp_bool true true = Ordering.eq
cmp_bool false true = Ordering.lt
cmp_bool true false = Ordering.gt

unfoldable pub compare_bool_json : Bytes → Bytes → Ordering
unfolding or_bytes cmp_bool
compare_bool_json left right =
    or_bytes cmp_bool (unmarshal_bool left) (unmarshal_bool right) left right

unfoldable pub compare_primary_key_value : PrimaryKeyType → Bytes → Bytes → Ordering
unfolding compare_integer_json compare_bool_json
compare_primary_key_value typ left right =
    if typ == integer_type
    then compare_integer_json left right
    else if typ == boolean_type
    then compare_bool_json left right
    else compare_bytes left right

unfoldable pub compare_primary_key_part : PrimaryKeyPart → PrimaryKeyPart → Ordering
unfolding compare_primary_key_value
compare_primary_key_part left right = then_cmp (cmp_str left.column right.column) (
    then_cmp (cmp_str left.key_type right.key_type)
      (compare_primary_key_value left.key_type left.value right.value))

-- The loop over the common length, and then the comparison of the lengths.
unfoldable pub compare_primary_keys : PrimaryKey → PrimaryKey → Ordering
unfolding compare_primary_key_part
compare_primary_keys [] [] = Ordering.eq
compare_primary_keys [] (r ∷ rs) = Ordering.lt
compare_primary_keys (l ∷ ls) [] = Ordering.gt
compare_primary_keys (l ∷ ls) (r ∷ rs) =
    then_cmp (compare_primary_key_part l r) (compare_primary_keys ls rs)

-- `data` is the decoded JSON object, and `types[column]` is the empty type where it is missing.
unfoldable pub or_unspecified : Option PrimaryKeyType → PrimaryKeyType
or_unspecified none = ""
or_unspecified (some t) = t

pub record MissingColumn : Type 0 where
  pub column : String

unfoldable pub cons_part :
    PrimaryKeyPart → Result MissingColumn PrimaryKey → Result MissingColumn PrimaryKey
cons_part p (ok ps) = ok (p ∷ ps)
cons_part p (err e) = err e

unfoldable pub primary_key_parts_from_map :
    Table String Bytes → List String → Table String PrimaryKeyType → Result MissingColumn PrimaryKey
unfolding or_unspecified cons_part
primary_key_parts_from_map row [] types = ok []
primary_key_parts_from_map row (column ∷ columns) types =
    let rest = primary_key_parts_from_map row columns types in
    elim (row column) [
      | none ↦ err (record { column = column })
      | some value ↦
          cons_part
            (record { column = column; key_type = or_unspecified (types column); value = value })
            rest
    ]
