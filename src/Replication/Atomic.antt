-- ===== src/Replication/Atomic.antt =====
-- A batch that fails leaves the database as it was.
use transmogr.Base.{
  none, some, Option, ◌≡◌, refl, Bool, some, List, [], ◌∷◌, string_eq, Result, ok, err,
}
use transmogr.Models.Events.{ReplicationEvent, ApplyMode}
use transmogr.Models.State.{scope_eq}
use transmogr.Apply.Rows.{ApplyError}
use transmogr.Commit.{Db, commit_body, commit_state_applied_transaction, with_tx}
use transmogr.Replication.{
  BatchError, prepare, apply_prepared, commit_prepared, apply_batch, in_cursor_order,
}

-- An outcome with an error leaves the database as it was.
abbrev pub RolledBack : Db → Db × Option BatchError → Type 0
RolledBack db (db', none) = Unit
RolledBack db (db', some e) = db' ≡ db

committed-RolledBack :
    (es : List ReplicationEvent) (e : ReplicationEvent) (mode : ApplyMode) (db : Db)
    (body : Result ApplyError Db)
    → commit_body (e ∷ es) mode db ≡ body
    → RolledBack db (commit_prepared mode (e ∷ es) db)
unfolding commit_prepared commit_state_applied_transaction with_tx
committed-RolledBack es e mode db (ok db') h = rw h tt
committed-RolledBack es e mode db (err x) h = rw h refl

commit_prepared-RolledBack :
    (mode : ApplyMode) (es : List ReplicationEvent) (db : Db)
    → RolledBack db (commit_prepared mode es db)
unfolding commit_prepared
commit_prepared-RolledBack mode [] db = tt
commit_prepared-RolledBack mode (e ∷ es) db =
    committed-RolledBack es e mode db (commit_body (e ∷ es) mode db) refl

apply_prepared-RolledBack :
    (mode : ApplyMode) (sorts : Bool) (prepared : Result BatchError (List ReplicationEvent))
    (db : Db)
    → RolledBack db (apply_prepared mode sorts prepared db)
unfolding apply_prepared
apply_prepared-RolledBack mode sorts (err e) db = refl
apply_prepared-RolledBack mode sorts (ok es) db =
    commit_prepared-RolledBack mode (in_cursor_order sorts es) db

pub apply_batch-RolledBack :
    (mode : ApplyMode) (sorts : Bool) (es : List ReplicationEvent) (db : Db)
    → RolledBack db (apply_batch mode sorts es db)
unfolding apply_batch
apply_batch-RolledBack mode sorts es db = apply_prepared-RolledBack mode sorts (prepare mode es) db
