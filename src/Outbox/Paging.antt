-- ===== src/Outbox/Paging.antt =====
-- internal/transport/grpc/server/handlers.go: `replayPendingBatches`, the pages by which the sender
-- replays the pending batches of a peer while nothing changes them. The loop ends at an empty page;
-- here it has fuel, and one page more than there are rows is enough. The send queue takes every batch.
use mathlib.Core.Path.{subst}
use transmogr.Base.{
  ℕ, zero, suc, ◌<◌, ◌≤◌, String, ◌≡◌, ◌⊎◌, inl, inr, refl, sym, ap, ◌∙◌, Bool, false, ◌&&◌, Option,
  none, some, List, [], ◌∷◌, ◌++◌, arith, All, keep, take, drop, take-append-drop, length,
  length-drop, length-keep-le, ltb, string_eq, Bool-cases,
}
use transmogr.Base.Int.{pos}
use transmogr.Models.Events.{OutboxBatch}
use transmogr.Outbox.{OutboxDb, in_window, outbox_list_pending_window}
use transmogr.Outbox.Invariant.{Rows, Differs, IsWellFormed}

abbrev pub replay_page_size : ℕ
replay_page_size = 256

-- The id of the last batch that was sent.
abbrev last_id : ℕ → List OutboxBatch → ℕ
last_id after [] = after
last_id after (b ∷ bs) = last_id b.id bs

-- The batches in the order in which they are sent; `none` is a loop that did not end.
more_pages : List OutboxBatch → Option (List OutboxBatch) → Option (List OutboxBatch)
more_pages [] rest = some []
more_pages (b ∷ bs) none = none
more_pages (b ∷ bs) (some later) = some ((b ∷ bs) ++ later)

unfoldable pub replay_from : ℕ → String → ℕ → ℕ → ℕ → OutboxDb → Option (List OutboxBatch)
unfolding more_pages
replay_from zero region lower upper after db = none
replay_from (suc fuel) region lower upper after db =
    let page = outbox_list_pending_window region lower upper after (pos replay_page_size) db in
    more_pages page (replay_from fuel region lower upper (last_id after page) db)

unfoldable pub replay_pending_batches : ℕ → String → ℕ → ℕ → OutboxDb → Option (List OutboxBatch)
unfolding replay_from
replay_pending_batches fuel region lower upper db = replay_from fuel region lower upper 0 db

-- The rows of a window after an id.
module _ (p : OutboxBatch → Bool) where
  abbrev found : ℕ → List OutboxBatch → List OutboxBatch
  found after bs = keep (λ b. p b && ltb after b.id) bs

  -- Rows that are all after an id
  none_before :
      (after : ℕ) (b : OutboxBatch) (bs : List OutboxBatch)
      → after ≤ b.id
      → All (Differs b) bs
      → found after bs ≡ keep p bs
  none_before after b [] h d = refl
  none_before after b (x ∷ xs) h d = ground (arith, d.0, none_before after b xs h d.1)

  found-row :
      (after : ℕ) (b : OutboxBatch) (bs : List OutboxBatch)
      → All (Differs b) bs
      → found b.id bs ≡ keep p bs
  found-row after b bs d = none_before b.id b bs (omega arith) d

  last_id-ge : (a c n : ℕ) (bs : List OutboxBatch) → a ≤ c → a ≤ last_id c (take n (found a bs))
  last_id-ge a c zero bs h = h
  last_id-ge a c (suc n) [] h = h
  last_id-ge a c (suc n) (b ∷ bs) h = elim (Bool-cases (p b && ltb a b.id)) [
    | inl e ↦ rw e (last_id-ge a b.id n bs (ground (arith, e)))
    | inr e ↦ rw e (last_id-ge a c (suc n) bs h)
  ]

  -- A row that is at or before an id is not found after it.
  not_found :
      (after : ℕ) (b : OutboxBatch) (bs : List OutboxBatch)
      → (p b ≡ false) ⊎ (b.id ≤ after)
      → found after (b ∷ bs) ≡ found after bs
  not_found after b bs h = ground (arith, h)

  -- Dropping a page is looking after its last row.
  found-drop :
      (next after n : ℕ) (bs : List OutboxBatch)
      → Rows next bs
      → found (last_id after (take n (found after bs))) bs ≡ drop n (found after bs)
  found-drop next after zero bs h = refl
  found-drop next after (suc n) [] h = refl
  found-drop next after (suc n) (b ∷ bs) h = elim (Bool-cases (p b && ltb after b.id)) [
    | inl e ↦
        let same : found after bs ≡ found b.id bs =
          none_before after b bs (ground (arith, e)) h.1 ∙ sym (found-row b.id b bs h.1) in
        let there = found-drop next b.id n bs h.2 in
        let gone =
          not_found (last_id b.id (take n (found b.id bs))) b bs
            (inr (last_id-ge b.id b.id n bs (omega arith))) in
        let first : found after (b ∷ bs) ≡ b ∷ found b.id bs = rw (e, same) refl in
        subst (λ f. found (last_id after (take (suc n) f)) (b ∷ bs) ≡ drop (suc n) f) (sym first)
          (gone ∙ there)
    | inr e ↦
        let there = found-drop next after (suc n) bs h.2 in
        let low = last_id-ge after after (suc n) bs (omega arith) in
        let first : found after (b ∷ bs) ≡ found after bs = rw e refl in
        subst (λ f. found (last_id after (take (suc n) f)) (b ∷ bs) ≡ drop (suc n) f) (sym first)
          (not_found (last_id after (take (suc n) (found after bs))) b bs (ground (arith, e, low))
            ∙ there)
  ]

-- A page and what follows it.
page-rest :
    (n : ℕ) (bs : List OutboxBatch) (rest : Option (List OutboxBatch))
    → (0 < length bs → rest ≡ some (drop (suc n) bs))
    → more_pages (take (suc n) bs) rest ≡ some bs
unfolding more_pages
page-rest n [] rest h = refl
page-rest n (b ∷ bs) rest h =
    rw (h (omega arith)) (ap (λ xs. some (b ∷ xs)) (take-append-drop n bs))

-- More fuel than there are rows left to send.
replay_from_all :
    (fuel : ℕ) (region : String) (lower upper after : ℕ) (db : OutboxDb)
    → IsWellFormed db
    → length (found (in_window region lower upper) after db.rows) < fuel
    → replay_from fuel region lower upper after db
      ≡ some (found (in_window region lower upper) after db.rows)
unfolding replay_from outbox_list_pending_window
replay_from_all zero region lower upper after db h l = ground (arith, l)
replay_from_all (suc fuel) region lower upper after db h l =
    let p = in_window region lower upper in
    let there = found p after db.rows in
    let next = last_id after (take 256 there) in
    let dropped = found-drop p db.next_id after 256 db.rows h in
    page-rest 255 there (replay_from fuel region lower upper next db) λ some_left.
      replay_from_all fuel region lower upper next db h
        (omega (arith, l, some_left, ap length dropped, length-drop 256 there))
      ∙ ap some dropped

-- While nothing changes the outbox, the pages of a replay hold exactly the pending batches of the peer
-- in the window, each once, in the order of their ids, and the loop ends: one round more than there
-- are rows is enough. Ids start above zero.
pub replay_pending_batches-All :
    (region : String) (lower upper : ℕ) (db : OutboxDb)
    → IsWellFormed db
    → All (λ b. 0 < b.id) db.rows
    → replay_pending_batches (suc (length db.rows)) region lower upper db
      ≡ some (keep (in_window region lower upper) db.rows)
unfolding replay_pending_batches
replay_pending_batches-All region lower upper db h positive =
    let p = in_window region lower upper in
    replay_from_all (suc (length db.rows)) region lower upper 0 db h
      (omega (arith, length-keep-le (λ b. p b && ltb 0 b.id) db.rows))
    ∙ ap some (keep_positive p db.rows positive)
  where
    keep_positive :
        (p : OutboxBatch → Bool) (bs : List OutboxBatch)
        → All (λ b. 0 < b.id) bs
        → keep (λ b. p b && ltb 0 b.id) bs ≡ keep p bs
    keep_positive p [] h = refl
    keep_positive p (b ∷ bs) h = ground (arith, h.0, keep_positive p bs h.1)
