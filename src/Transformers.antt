-- ===== src/Transformers.antt =====
-- internal/replication/transformers: the chains of transformers, and how encrypted fields travel as
-- metadata. The crypto service is a parameter; a Go map is a list of entries, one for a key.
pub mod Transit
pub mod Entries
pub mod Carried
pub mod Events
use transmogr.Base.{
  ℕ, String, Bool, true, false, not, ◌&&◌, ◌||◌, Option, none, some, List, [], ◌∷◌, keep, leb,
  nat_beq, if◌then◌else◌, ◌==◌, string_eq, Result, ok, err, ◌>>=◌,
}
use Prim.Native.Char.{Char, code}
use transmogr.Models.Json.{Bytes}
use transmogr.Models.Events.{ReplicationEvent, OutboxBatch, Operation, Fields}
use transmogr.Models.State.{SnapshotRow}
use transmogr.Apply.Rows.{field}
use transmogr.Replication.{is_delete}

-- What the transformers use of a crypto service.
pub record CryptoService : Type 0 where
  pub encrypt : String → Fields → Result String Fields
  pub decrypt : String → Fields → Result String Fields
  pub encrypted_field_names : String → List String

-- m[key] = value, and delete(m, key)
unfoldable pub put_field : String → Bytes → Fields → Fields
put_field key value [] = (key, value) ∷ []
put_field key value ((k, v) ∷ fs) =
    let rest = put_field key value fs in if k == key then (k, value) ∷ fs else (k, v) ∷ rest

unfoldable pub delete_field : String → Fields → Fields
delete_field key fs = keep (λ (f : String × Bytes). not (f.0 == key)) fs

-- Texts, as what Go does with them: concatenation, and strings.HasPrefix with strings.TrimPrefix.
unfoldable pub join : String → String → String
join String.[] t = t
join (String.◌∷◌ c s) t = String.◌∷◌ c (join s t)

unfoldable pub strip_prefix : String → String → Option String
strip_prefix String.[] t = some t
strip_prefix (String.◌∷◌ c s) String.[] = none
strip_prefix (String.◌∷◌ c s) (String.◌∷◌ d t) =
    let rest = strip_prefix s t in if nat_beq (code c) (code d) then rest else none

abbrev pub transit_prefix : String
transit_prefix = "transit.crypto."

unfoldable pub transit_key : String → String
unfolding join
transit_key name = if name == "" then "" else join transit_prefix name

is_transit_char : ℕ → Bool
is_transit_char n =
    (leb 97 n && leb n 122) || (leb 48 n && leb n 57) || nat_beq n 95 || nat_beq n 45

are_transit_chars : String → Bool
unfolding is_transit_char
are_transit_chars String.[] = true
are_transit_chars (String.◌∷◌ c s) =
    let rest = are_transit_chars s in if is_transit_char (code c) then rest else false

unfoldable pub is_valid_crypto_transit_field : String → Bool
unfolding are_transit_chars
is_valid_crypto_transit_field name = not (name == "") && are_transit_chars name

unfoldable pub checked_field : Option String → Option String
checked_field none = none
checked_field (some name) = if is_valid_crypto_transit_field name then some name else none

unfoldable pub parse_transit_key : String → Option String
unfolding checked_field strip_prefix
parse_transit_key key = checked_field (strip_prefix transit_prefix key)

-- One encrypted field goes from the fields to the metadata, if it is there.
moved_out : String → Option Bytes → Fields × Fields → Fields × Fields
unfolding put_field delete_field transit_key
moved_out name none (fs, metadata) = (fs, metadata)
moved_out name (some value) (fs, metadata) =
    (delete_field name fs, put_field (transit_key name) value metadata)

unfoldable pub move_out : List String → Fields × Fields → Fields × Fields
unfolding moved_out
move_out [] s = s
move_out (name ∷ names) s = move_out names (moved_out name (field name s.0) s)

-- The entries of the metadata that carry a field go back to the fields.
moved_in : String → Bytes → Option String → Fields × Fields → Fields × Fields
unfolding put_field
moved_in key value none (fs, metadata) = (fs, (key, value) ∷ metadata)
moved_in key value (some name) (fs, metadata) = (put_field name value fs, metadata)

unfoldable pub move_in : Fields → Fields → Fields × Fields
unfolding moved_in parse_transit_key
move_in [] fs = (fs, [])
move_in ((key, value) ∷ metadata) fs =
    moved_in key value (parse_transit_key key) (move_in metadata fs)

module _ (crypto : CryptoService) where
  unfoldable pub outbound_event : ReplicationEvent → Result String ReplicationEvent
  unfolding move_out
  outbound_event e = crypto.decrypt e.table e.fields >>= λ fields.
      let (fs, metadata) = move_out (crypto.encrypted_field_names e.table) (fields, e.metadata) in
      ok (record e { fields = fs; metadata = metadata })

  outbound_events : List ReplicationEvent → Result String (List ReplicationEvent)
  unfolding outbound_event
  outbound_events [] = ok []
  outbound_events (e ∷ es) = do e' ← outbound_event e; es' ← outbound_events es; ok (e' ∷ es')

  -- PrepareOutboundBatch
  unfoldable pub prepare_outbound_batch : OutboxBatch → Result String OutboxBatch
  unfolding outbound_events
  prepare_outbound_batch b =
      outbound_events b.events >>= λ events. ok (record b { events = events })

  unfoldable pub inbound_event : ReplicationEvent → Result String ReplicationEvent
  unfolding move_in
  inbound_event e =
      let (fs, metadata) = move_in e.metadata e.fields in
      if is_delete e.operation
      then ok e
      else crypto.encrypt e.table fs >>= λ fields.
          ok (record e { fields = fields; metadata = metadata })

  -- PrepareInboundEvents
  unfoldable pub prepare_inbound_events :
      List ReplicationEvent → Result String (List ReplicationEvent)
  unfolding inbound_event
  prepare_inbound_events [] = ok []
  prepare_inbound_events (e ∷ es) = do
    e' ← inbound_event e
    es' ← prepare_inbound_events es
    ok (e' ∷ es')

-- The chains: each transformer on what the one before made.
unfoldable pub chain {ℓ} : {A : Type ℓ} → List (A → Result String A) → A → Result String A
chain [] x = ok x
chain (t ∷ ts) x = t x >>= λ y. chain ts y

unfoldable pub prepare_batch :
    List (OutboxBatch → Result String OutboxBatch) → OutboxBatch → Result String OutboxBatch
unfolding chain
prepare_batch = chain

unfoldable pub prepare_events :
    List (List ReplicationEvent → Result String (List ReplicationEvent))
    → List ReplicationEvent
    → Result String (List ReplicationEvent)
unfolding chain
prepare_events = chain
