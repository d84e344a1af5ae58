-- ===== src/Transformers/Carried.antt =====
-- Encrypted fields that leave an event as metadata, and come back.
use transmogr.Base.{
  String, ◌≡◌, refl, ap, ◌∙◌, true, Option, none, some, List, [], ◌∷◌, arith, All, ◌==◌, string_eq,
  eq_iff, Bool-cases, beq_refl, ◌⊎◌, inl, inr,
}
use transmogr.Models.Json.{Bytes}
use transmogr.Models.Events.{Fields}
use transmogr.Apply.Rows.{field}
use transmogr.Transformers.{
  move_out, moved_out, move_in, parse_transit_key, transit_key, is_valid_crypto_transit_field,
}
use transmogr.Transformers.Transit.{parse_transit_key-transit_key}
use transmogr.Transformers.Entries.{
  field-delete_field, carried, or_else, carries, own, own_entries, move_in-field, carried-put_field,
  move_in-own_entries, own_entries-put_field,
}

-- No column is both in the fields and carried by the metadata.
IsApart : Fields × Fields → Type 0
IsApart s = (c : String) → (carried c s.1 ≡ none) ⊎ (field c s.0 ≡ none)

abbrev all_of : String → Fields × Fields → Option Bytes
all_of c s = or_else (carried c s.1) (field c s.0)

-- What moving fields out keeps.
record IsKept (before after : Fields × Fields) : Type 0 where
  apart : IsApart after
  columns : (c : String) → all_of c after ≡ all_of c before
  others : own_entries after.1 ≡ own_entries before.1

moved_out-IsKept :
    (name : String) (found : Option Bytes) (s : Fields × Fields)
    → field name s.0 ≡ found
    → parse_transit_key (transit_key name) ≡ some name
    → IsApart s
    → IsKept s (moved_out name found s)
unfolding moved_out IsApart or_else
moved_out-IsKept name none s e h apart = record {
  apart = apart;
  columns = λ c. refl;
  others = refl;
}
moved_out-IsKept name (some value) s e h apart =
    let free : carried name s.1 ≡ none = ground (arith, e, apart name) in
    record {
      apart = λ c.
          rw
            (
              carried-put_field c (transit_key name) name value s.1 h free,
              field-delete_field c name s.0,
            )
            (elim (Bool-cases (name == c)) [ inl f ↦ inr (rw f refl) | inr f ↦ rw f (apart c) ]);
      columns = λ c.
          rw
            (
              carried-put_field c (transit_key name) name value s.1 h free,
              field-delete_field c name s.0,
            )
            (ground (arith, e, free, eq_iff name c));
      others = own_entries-put_field (transit_key name) name value s.1 h;
    }

module _ (names : List String) where
  abbrev pub AllValid : Type 0
  AllValid = All (λ name. is_valid_crypto_transit_field name ≡ true) names

move_out-IsKept :
    (names : List String) (s : Fields × Fields)
    → AllValid names
    → IsApart s
    → IsKept s (move_out names s)
unfolding move_out
move_out-IsKept [] s valid apart = record { apart = apart; columns = λ c. refl; others = refl }
move_out-IsKept (name ∷ names) s valid apart =
    let first =
      moved_out-IsKept name (field name s.0) s refl ((parse_transit_key-transit_key name).1 valid.0)
        apart in
    let later = move_out-IsKept names (moved_out name (field name s.0) s) valid.1 first.apart in
    record {
      apart = later.apart;
      columns = λ c. later.columns c ∙ first.columns c;
      others = later.others ∙ first.others;
    }

-- Metadata whose entries carry no field.
abbrev pub CarriesNone : Fields → Type 0
CarriesNone = All λ (m : String × Bytes). parse_transit_key m.0 ≡ none

carried-CarriesNone :
    (c : String) (metadata : Fields) → CarriesNone metadata → carried c metadata ≡ none
unfolding carried carries
carried-CarriesNone c [] h = refl
carried-CarriesNone c ((key, value) ∷ metadata) h = rw h.0 (carried-CarriesNone c metadata h.1)

own_entries-CarriesNone :
    (metadata : Fields) → CarriesNone metadata → own_entries metadata ≡ metadata
unfolding own_entries own
own_entries-CarriesNone [] h = refl
own_entries-CarriesNone ((key, value) ∷ metadata) h =
    rw h.0 (ap (λ rest. (key, value) ∷ rest) (own_entries-CarriesNone metadata h.1))

pub move_in-move_out :
    (names : List String) (fs metadata : Fields)
    → AllValid names
    → CarriesNone metadata
    → ((c : String)
        → field c (move_in (move_out names (fs, metadata)).1 (move_out names (fs, metadata)).0).0
          ≡ field c fs)
      × ((move_in (move_out names (fs, metadata)).1 (move_out names (fs, metadata)).0).1 ≡ metadata)
unfolding or_else IsApart
move_in-move_out names fs metadata valid none_carried =
    let start : IsApart (fs, metadata) = λ c. inl (carried-CarriesNone c metadata none_carried) in
    let kept = move_out-IsKept names (fs, metadata) valid start in
    let moved = move_out names (fs, metadata) in
    (
      λ c.
          move_in-field c moved.1 moved.0
          ∙ kept.columns c
          ∙ ap (λ o. or_else o (field c fs)) (carried-CarriesNone c metadata none_carried),
      move_in-own_entries moved.1 moved.0
          ∙ kept.others
          ∙ own_entries-CarriesNone metadata none_carried,
    )

-- What has left the fields stays away.
moved_out-none :
    (c name : String) (found : Option Bytes) (s : Fields × Fields)
    → field c s.0 ≡ none
    → field c (moved_out name found s).0 ≡ none
unfolding moved_out
moved_out-none c name none s h = h
moved_out-none c name (some value) s h = ground (arith, field-delete_field c name s.0, h)

moved_out-gone :
    (name : String) (found : Option Bytes) (s : Fields × Fields)
    → field name s.0 ≡ found
    → field name (moved_out name found s).0 ≡ none
unfolding moved_out
moved_out-gone name none s h = h
moved_out-gone name (some value) s h =
    ground (arith, field-delete_field name name s.0, beq_refl name)

move_out-none :
    (c : String) (names : List String) (s : Fields × Fields)
    → field c s.0 ≡ none
    → field c (move_out names s).0 ≡ none
unfolding move_out
move_out-none c [] s h = h
move_out-none c (name ∷ names) s h =
    move_out-none c names (moved_out name (field name s.0) s)
      (moved_out-none c name (field name s.0) s h)

pub move_out-gone :
    (names : List String) (s : Fields × Fields)
    → All (λ name. field name (move_out names s).0 ≡ none) names
unfolding move_out
move_out-gone [] s = tt
move_out-gone (name ∷ names) s = (
  move_out-none name names (moved_out name (field name s.0) s)
      (moved_out-gone name (field name s.0) s refl),
  move_out-gone names (moved_out name (field name s.0) s),
)
