-- ===== src/Server/Feed/Handoff.antt =====
-- The feed of a consumer as a whole: from the snapshot over the pending batches to the live ones.
use transmogr.Outbox.Stored.{IsStored}
use transmogr.Server.Feed.Copies.{copies, IsAlone}
use transmogr.Base.{
  ℕ, suc, ◌<◌, String, ◌≡◌, refl, true, List, [], ◌∷◌, ◌++◌, map, keep, All, length, ◌==◌,
  string_eq, ok,
}
use transmogr.Models.Events.{OutboxBatch}
use transmogr.Leases.{Leases}
use transmogr.Outbox.{in_window}
use transmogr.Outbox.Invariant.{IsWellFormed}
use transmogr.Protocol.Messages.{ConsumeResponse}
use transmogr.Replication.{SnapshotRequest}
use transmogr.Server.Feed.{Server, Course, done, then_send, batch_to_proto, is_live, completions}

then_send-done : (ms ns : List ConsumeResponse) → then_send (done ms) (done ns) ≡ done (ms ++ ns)
unfolding then_send
then_send-done ms ns = refl

module _ (s : Server) (message : OutboxBatch → ConsumeResponse)
    (encodes : (b : OutboxBatch) → batch_to_proto s b ≡ ok (message b)) where
  module _ (c : Course) (region : String) (formed : IsWellFormed c.outbox)
      (positive : All (λ b. 0 < b.id) c.outbox.rows)
      (enough : c.fuel ≡ suc (length c.outbox.rows)) where
    abbrev window : ℕ → ℕ → List ConsumeResponse
    window lower upper = map message (keep (in_window region lower upper) c.outbox.rows)

    -- The pending batches, with the completions of the snapshots that were asked for.
    abbrev pub pending : List SnapshotRequest → List ConsumeResponse
    pending [] = window 0 c.live_watermark
    pending (q ∷ qs) =
        window 0 c.snapshot_watermark
        ++ (window c.snapshot_watermark c.live_watermark ++ completions (q ∷ qs))

-- The batches of the replays.
abbrev pub replayed_batches : Course → String → List SnapshotRequest → List OutboxBatch
replayed_batches c region [] = keep (in_window region 0 c.live_watermark) c.outbox.rows
replayed_batches c region (q ∷ qs) =
    keep (in_window region 0 c.snapshot_watermark) c.outbox.rows
    ++ keep (in_window region c.snapshot_watermark c.live_watermark) c.outbox.rows

-- A row of the outbox is handed over exactly once, if the subscription delivers it once where it is
-- after the live watermark.
abbrev pub IsHandedOver : Course → String → List SnapshotRequest → Type 0
IsHandedOver c region requests =
    (b : OutboxBatch)
    → IsStored b c.outbox.rows
    → (b.peer_region == region) ≡ true
    → 0 < b.created_at
    → IsAlone b c.live
    → (c.live_watermark < b.created_at → copies b.id c.live ≡ 1)
    → copies b.id (replayed_batches c region requests ++ keep (is_live c.live_watermark) c.live) ≡ 1
