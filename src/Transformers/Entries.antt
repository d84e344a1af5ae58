-- ===== src/Transformers/Entries.antt =====
-- What the entries of the fields and of the metadata say of a column.
use transmogr.Base.{
  String, ◌≡◌, refl, ap, ◌∙◌, Bool, false, Option, none, some, [], ◌∷◌, arith, if◌then◌else◌, ◌==◌,
  string_eq, eq_iff, Bool-cases, beq→eq, inl, inr,
}
use transmogr.Models.Json.{Bytes}
use transmogr.Models.Events.{Fields}
use transmogr.Apply.Rows.{field}
use transmogr.Transformers.{put_field, delete_field, move_in, moved_in, parse_transit_key}

pub field-put_field :
    (c key : String) (value : Bytes) (fs : Fields)
    → field c (put_field key value fs) ≡ (if key == c then some value else field c fs)
unfolding put_field
field-put_field c key value [] = refl
field-put_field c key value ((k, v) ∷ fs) =
    ground (arith, field-put_field c key value fs, eq_iff k key, eq_iff k c, eq_iff key c)

pub field-delete_field :
    (c key : String) (fs : Fields)
    → field c (delete_field key fs) ≡ (if key == c then none else field c fs)
unfolding delete_field
field-delete_field c key [] = ground arith
field-delete_field c key ((k, v) ∷ fs) =
    ground (arith, field-delete_field c key fs, eq_iff k key, eq_iff k c, eq_iff key c)

-- The value that the metadata carries for a column.
unfoldable pub carries : Option String → String → Bool
carries none c = false
carries (some name) c = name == c

unfoldable pub carried : String → Fields → Option Bytes
carried c [] = none
carried c ((key, value) ∷ metadata) =
    let rest = carried c metadata in if carries (parse_transit_key key) c then some value else rest

unfoldable pub or_else : Option Bytes → Option Bytes → Option Bytes
or_else none o = o
or_else (some v) o = some v

moved_in-field :
    (c key : String) (value : Bytes) (parsed : Option String) (s : Fields × Fields)
    → field c (moved_in key value parsed s).0
      ≡ (if carries parsed c then some value else field c s.0)
unfolding moved_in carries
moved_in-field c key value none s = refl
moved_in-field c key value (some name) s = field-put_field c name value s.0

pub move_in-field :
    (c : String) (metadata fs : Fields)
    → field c (move_in metadata fs).0 ≡ or_else (carried c metadata) (field c fs)
unfolding move_in carried or_else
move_in-field c [] fs = refl
move_in-field c ((key, value) ∷ metadata) fs = ground (
  arith,
  moved_in-field c key value (parse_transit_key key) (move_in metadata fs),
  move_in-field c metadata fs,
)

-- A transit entry changes what is carried for its own column only.
pub carried-put_field :
    (c key name : String) (value : Bytes) (metadata : Fields)
    → parse_transit_key key ≡ some name
    → carried name metadata ≡ none
    → carried c (put_field key value metadata)
      ≡ (if name == c then some value else carried c metadata)
unfolding carried put_field carries
carried-put_field c key name value [] h free = rw h refl
carried-put_field c key name value ((k, v) ∷ metadata) h free = elim (Bool-cases (k == key)) [
  | inl e ↦
      (let same : parse_transit_key k ≡ some name = rw (beq→eq k key e) h in
        rw (e, same) (ground arith))
  | inr e ↦
      rw e (ground (arith, h, free, eq_iff name c, carried-put_field c key name value metadata h))
]

-- The entries that carry no field.
unfoldable pub own : Option String → String × Bytes → Fields → Fields
own none entry rest = entry ∷ rest
own (some name) entry rest = rest

unfoldable pub own_entries : Fields → Fields
unfolding own
own_entries [] = []
own_entries ((key, value) ∷ metadata) =
    own (parse_transit_key key) (key, value) (own_entries metadata)

moved_in-own :
    (key : String) (value : Bytes) (parsed : Option String) (s : Fields × Fields)
    → (moved_in key value parsed s).1 ≡ own parsed (key, value) s.1
unfolding moved_in own
moved_in-own key value none s = refl
moved_in-own key value (some name) s = refl

pub move_in-own_entries : (metadata fs : Fields) → (move_in metadata fs).1 ≡ own_entries metadata
unfolding move_in own_entries
move_in-own_entries [] fs = refl
move_in-own_entries ((key, value) ∷ metadata) fs =
    moved_in-own key value (parse_transit_key key) (move_in metadata fs)
    ∙ ap (own (parse_transit_key key) (key, value)) (move_in-own_entries metadata fs)

pub own_entries-put_field :
    (key name : String) (value : Bytes) (metadata : Fields)
    → parse_transit_key key ≡ some name
    → own_entries (put_field key value metadata) ≡ own_entries metadata
unfolding own_entries put_field own
own_entries-put_field key name value [] h = rw h refl
own_entries-put_field key name value ((k, v) ∷ metadata) h = elim (Bool-cases (k == key)) [
  | inl e ↦
      (let same : parse_transit_key k ≡ some name = rw (beq→eq k key e) h in rw (e, same) refl)
  | inr e ↦
      rw e (ap (own (parse_transit_key k) (k, v)) (own_entries-put_field key name value metadata h))
]
