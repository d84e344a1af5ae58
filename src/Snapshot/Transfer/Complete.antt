-- ===== src/Snapshot/Transfer/Complete.antt =====
-- The loop of `SendToPeer` and the lease around it: what is handed over, and that it ends.
use mathlib.Core.Path.{subst}
use transmogr.Base.{
  ℕ, zero, suc, ◌<◌, String, ◌≡◌, refl, ap, some, List, [], ◌∷◌, ◌++◌, arith, All, take, length,
  last?, ok, Bool-cases, inl, inr, length-drop,
}
use transmogr.Models.Json.{Bytes}
use transmogr.Models.PrimaryKey.{PrimaryKey}
use transmogr.Models.State.{SnapshotChunk, SnapshotRow}
use transmogr.Apply.Rows.{TableSpec}
use transmogr.Snapshot.Source.{read_snapshot_chunk, table_spec}
use transmogr.Snapshot.Source.Keys.{IsReadable, key_parts, snapshot_row, scan_rows-readable}
use transmogr.Snapshot.Sender.{Service, Calls, region_of, send_loop, read_local_chunk, send_chunk}
use transmogr.Snapshot.Transfer.{
  IsServed, rows_after, key_of, rows_after_chunk, IsChosen, rows_after-IsChosen,
}
use transmogr.Snapshot.Transfer.Rounds.{
  IsComplete, NeverFails, chunk_of, round_ends, round_continues, nonempty_of_last,
}

module _ (s : Service) (table : String) (spec : TableSpec) (served : IsServed s.source table spec)
    (calls : Calls) (sound : NeverFails calls) where
  abbrev later : PrimaryKey → List Bytes
  later = rows_after s.source table spec served (region_of s.lease)

  abbrev row_for : Bytes → SnapshotRow
  row_for = snapshot_row s.source spec (s.source.types table)

  same_payload : (p : Bytes) → (row_for p).payload ≡ p
  unfolding snapshot_row
  same_payload p = refl

  taken-IsReadable :
      (n : ℕ) (after : PrimaryKey) (ps : List Bytes)
      → All (IsChosen s.source table spec served (region_of s.lease) after) ps
      → All (IsReadable s.source spec) (take n ps)
  taken-IsReadable zero after ps h = tt
  taken-IsReadable (suc n) after [] h = tt
  taken-IsReadable (suc n) after (p ∷ ps) h = (h.0.0, taken-IsReadable n after ps h.1)

  read_chunk :
      (sent : List SnapshotChunk) (after : PrimaryKey)
      → read_local_chunk s calls sent table after
        ≡ ok (chunk_of s.chunk_size row_for (later after) same_payload)
  unfolding read_local_chunk read_snapshot_chunk table_spec
  read_chunk sent after =
      rw
        (
          sound.query sent,
          served.configured,
          scan_rows-readable s.source spec (s.source.types table) (take s.chunk_size (later after))
              (taken-IsReadable s.chunk_size after (later after)
                (rows_after-IsChosen s.source table spec served (region_of s.lease) after)),
        )
        refl

  fewer :
      (after : PrimaryKey) (p : Bytes) (fuel : ℕ)
      → last? (take s.chunk_size (later after)) ≡ some p
      → length (later after) < suc fuel
      → length (later (key_of s.source table spec served (region_of s.lease) p)) < fuel
  fewer after p fuel ep enough = omega (
    arith,
    enough,
    nonempty_of_last s.chunk_size (later after) p ep,
    ap length
        (rows_after_chunk s.source table spec served (region_of s.lease) after s.chunk_size p ep),
    length-drop s.chunk_size (later after),
  )

  pub loop-IsComplete :
      (fuel : ℕ) (sent : List SnapshotChunk) (after : PrimaryKey)
      → 0 < s.chunk_size
      → length (later after) < fuel
      → IsComplete s.chunk_size (later after) (send_loop fuel s calls table sent after)
  unfolding send_loop send_chunk snapshot_row key_parts
  loop-IsComplete zero sent after h enough = absurd (omega (arith, enough))
  loop-IsComplete (suc fuel) sent after h enough =
      let chunk = chunk_of s.chunk_size row_for (later after) same_payload in
      let more = λ (key : PrimaryKey). send_loop fuel s calls table (sent ++ chunk ∷ []) key in
      rw (read_chunk sent after, sound.callback sent chunk)
        (elim (Bool-cases chunk.last) [
          | inl e ↦ round_ends s.chunk_size row_for (later after) same_payload more e
          | inr e ↦ round_continues s.chunk_size row_for (later after) same_payload more h e λ p ep.
              subst (λ rows. IsComplete s.chunk_size rows (more (row_for p).primary_key))
                (rows_after_chunk s.source table spec served (region_of s.lease) after s.chunk_size
                  p ep)
                (loop-IsComplete fuel (sent ++ chunk ∷ [])
                  (key_of s.source table spec served (region_of s.lease) p) h
                  (fewer after p fuel ep enough))
        ])
