-- ===== src/Witnesses/Transformers.antt =====
-- A table with one encrypted column, on its way between two regions.
use transmogr.Base.{
  ℕ, ◌≡◌, refl, if◌then◌else◌, ◌==◌, string_eq, true, none, List, [], ◌∷◌, All, ok,
}
use transmogr.Base.Text.{codes}
use transmogr.Models.Events.{ReplicationEvent, Operation, Fields}
use transmogr.Apply.Rows.{field}
use transmogr.Transformers.{
  CryptoService, outbound_event, transit_key, parse_transit_key, is_valid_crypto_transit_field,
}
use transmogr.Transformers.Events.{Restores, outbound_event-Restores}
use transmogr.Witnesses.Protocol.{sent_event}

-- A cipher that puts a byte in front of the column.
abbrev shift : Fields → Fields
shift [] = []
shift ((key, value) ∷ fs) = if key == "ssn" then (key, 1 ∷ value) ∷ fs else (key, value) ∷ shift fs

abbrev without_mark : List ℕ → List ℕ
without_mark [] = []
without_mark (x ∷ xs) = xs

abbrev unshift : Fields → Fields
unshift [] = []
unshift ((key, value) ∷ fs) =
    if key == "ssn" then (key, without_mark value) ∷ fs else (key, value) ∷ unshift fs

abbrev crypto : CryptoService
crypto = record {
  encrypt = λ table fs. ok (shift fs);
  decrypt = λ table fs. ok (unshift fs);
  encrypted_field_names = λ table. "ssn" ∷ [];
}

abbrev person : ReplicationEvent
person = record (sent_event Operation.insert) {
  fields = ("ssn", 1 ∷ codes "5") ∷ ("id", codes "7") ∷ [];
}

ssn_valid : is_valid_crypto_transit_field "ssn" ≡ true
unfolding is_valid_crypto_transit_field
ssn_valid = refl

source_is_own : parse_transit_key "source" ≡ none
unfolding parse_transit_key
source_is_own = refl

abbrev plain_fields : Fields
plain_fields = ("ssn", codes "5") ∷ ("id", codes "7") ∷ []

outbound_event-Restores_example :
    (sent : ReplicationEvent) × (outbound_event crypto person ≡ ok sent)
    × All (λ name. field name sent.fields ≡ none) (crypto.encrypted_field_names person.table)
    × Restores crypto person sent plain_fields
outbound_event-Restores_example =
    outbound_event-Restores crypto crypto person plain_fields refl (ssn_valid, tt)
      (source_is_own, tt) refl

-- A name with a capital does not come back.
capital_lost : parse_transit_key (transit_key "SSN") ≡ none
unfolding parse_transit_key transit_key is_valid_crypto_transit_field
capital_lost = refl
