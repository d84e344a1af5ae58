-- ===== src/Changefeed/Cursors.antt =====
-- When the changefeed cursors move.
use transmogr.Base.{
  ℕ, String, ◌≡◌, ◌⊎◌, true, Option, none, some, List, [], ◌∷◌, All, contains, string_eq, Result,
  ok, err,
}
use transmogr.Base.Tables.{no_rows}
use transmogr.Models.Events.{ReplicationEvent}
use transmogr.Models.State.{ChangefeedBatch, ChangefeedChange, ChangefeedCursor}
use transmogr.Outbox.Service.{State}
use transmogr.Changefeed.{
  ServiceConfig, FeedError, Feed, FeedCursors, Saves, latest_by_table, enqueue_to_peers,
}

-- What the second loop leaves: each cursor as it was or as it is to be, and all of the latter if no
-- statement failed.
abbrev pub IsMoved : FeedCursors → FeedCursors → FeedCursors → Option FeedError → Type 0
IsMoved latest before after error =
    ((table : String) → (after table ≡ before table) ⊎ (after table ≡ latest table))
    × (error ≡ none
        → (table : String) (c : ChangefeedCursor) → latest table ≡ some c
        → after table ≡ some c)

-- The order of the second loop names every table that has a change.
abbrev pub NamesAll : Saves → List ChangefeedChange → Type 0
NamesAll saves = All λ (x : ChangefeedChange). contains x.table saves.tables ≡ true

-- The end of the call, by how the outbox answered.
abbrev pub AfterEnqueue :
    FeedCursors → FeedCursors → Option FeedError → Feed × Option FeedError → Type 0
AfterEnqueue latest before (some e) (after, error) = (error ≡ some e) × (after.cursors ≡ before)
AfterEnqueue latest before none (after, error) = IsMoved latest before after.cursors error

abbrev pub FeedOutcome :
    (ℕ → ℕ)
    → ServiceConfig
    → List String
    → ChangefeedBatch
    → Feed
    → Result FeedError (List ReplicationEvent)
    → Feed × Option FeedError
    → Type 0
FeedOutcome clock cfg peers batch f (err e) out = out ≡ (f, some e)
FeedOutcome clock cfg peers batch f (ok []) out = out ≡ (f, none)
FeedOutcome clock cfg peers batch f (ok (e ∷ es)) out =
    AfterEnqueue (latest_by_table cfg batch.changes no_rows) f.cursors
      (enqueue_to_peers clock cfg batch.tx_id (e ∷ es) peers f.outbox).error out
