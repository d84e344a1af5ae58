-- ===== src/Transformers/Events.antt =====
-- An event on its way through the crypto transformers of the sender and the receiver.
use transmogr.Base.{String, ◌≡◌, refl, false, none, All, ok, ◌>>=◌}
use transmogr.Models.Events.{ReplicationEvent, Fields}
use transmogr.Apply.Rows.{field}
use transmogr.Replication.{is_delete}
use transmogr.Transformers.{CryptoService, move_out, move_in, outbound_event, inbound_event}
use transmogr.Transformers.Carried.{AllValid, CarriesNone, move_in-move_out, move_out-gone}

-- What the receiver makes of a sent event: it encrypts `arrived` for its own table.
abbrev pub Restores : CryptoService → ReplicationEvent → ReplicationEvent → Fields → Type 0
Restores receiver e sent fs =
    (arrived : Fields) × ((c : String) → field c arrived ≡ field c fs)
    × (inbound_event receiver sent
        ≡ (receiver.encrypt e.table arrived >>= λ fields. ok (record e { fields = fields })))

-- For an event other than a deletion, which the sender's crypto service decrypts, where the names of
-- the table's encrypted fields have only lower-case letters, digits, `_` and `-`, and no metadata of
-- the event looks like a travelling field: the event that is sent has none of these fields in its
-- payload, and the receiver encrypts fields that agree in every column with what the sender
-- decrypted; on success, its event is the original with the encrypted fields, with the original
-- metadata.
pub outbound_event-Restores :
    (sender receiver : CryptoService) (e : ReplicationEvent) (fs : Fields)
    → sender.decrypt e.table e.fields ≡ ok fs
    → AllValid (sender.encrypted_field_names e.table)
    → CarriesNone e.metadata
    → is_delete e.operation ≡ false
    → (sent : ReplicationEvent) × (outbound_event sender e ≡ ok sent)
      × All (λ name. field name sent.fields ≡ none) (sender.encrypted_field_names e.table)
      × Restores receiver e sent fs
unfolding outbound_event inbound_event
outbound_event-Restores sender receiver e fs decrypts valid none_carried changes =
    let names = sender.encrypted_field_names e.table in
    let moved = move_out names (fs, e.metadata) in
    let (columns, others) = move_in-move_out names fs e.metadata valid none_carried in
    (
      record e { fields = moved.0; metadata = moved.1 },
      rw decrypts refl,
      move_out-gone names (fs, e.metadata),
      ((move_in moved.1 moved.0).0, columns, rw (changes, others) refl),
    )
