-- ===== src/Transformers/Transit.antt =====
-- Which encrypted fields come back from their metadata keys.
use transmogr.Base.{
  String, ◌≡◌, ◌↔◌, refl, true, false, some, arith, ◌==◌, string_eq, Bool-cases, inl, inr,
}
use transmogr.Transformers.{
  join, strip_prefix, transit_prefix, transit_key, checked_field, parse_transit_key,
  is_valid_crypto_transit_field,
}

strip_prefix-join : (p s : String) → strip_prefix p (join p s) ≡ some s
unfolding strip_prefix join
strip_prefix-join String.[] s = refl
strip_prefix-join (String.◌∷◌ c p) s = ground (arith, strip_prefix-join p s)

restored_valid :
    (name : String)
    → (checked_field (some name) ≡ some name) ↔ (is_valid_crypto_transit_field name ≡ true)
unfolding checked_field
restored_valid name = elim (Bool-cases (is_valid_crypto_transit_field name)) [
  | inl e ↦ rw e ((λ h. refl), λ h. refl)
  | inr e ↦ rw e ((λ h. cc), λ h. cc)
]

empty_invalid : (name : String) → (name == "") ≡ true → is_valid_crypto_transit_field name ≡ false
unfolding is_valid_crypto_transit_field
empty_invalid name e = rw e refl

-- A field comes back from the metadata key under which it travels exactly if its name is not empty
-- and has no other characters than lower-case letters, digits, `_` and `-`.
pub parse_transit_key-transit_key :
    (name : String)
    → (parse_transit_key (transit_key name) ≡ some name)
      ↔ (is_valid_crypto_transit_field name ≡ true)
unfolding parse_transit_key transit_key
parse_transit_key-transit_key name = elim (Bool-cases (name == "")) [
  | inl e ↦ rw (e, empty_invalid name e) ((λ h. cc), λ h. cc)
  | inr e ↦ rw (e, strip_prefix-join transit_prefix name) (restored_valid name)
]
