-- ===== src/Snapshot/Transfer/Rounds.antt =====
-- What a transfer hands over, and one round of the loop of `SendToPeer`.
use mathlib.Core.Path.{subst}
use transmogr.Base.{
  ℕ, zero, suc, ◌<◌, ◌≤◌, ◌≡◌, refl, sym, ap, ◌∙◌, true, false, none, some, List, [], ◌∷◌, ◌++◌,
  map, arith, All, take, drop, length, last?, is_empty, ltb, length-take, take-append-drop,
}
use mathlib.Core.List.{append-nil}
use transmogr.Models.Json.{Bytes}
use transmogr.Models.PrimaryKey.{PrimaryKey}
use transmogr.Models.State.{SnapshotChunk, SnapshotRow}
use transmogr.Snapshot.Sender.{Calls, Transfer, last_key, answered, prepend, key_or_empty}
use transmogr.Snapshot.Transfer.{last-map}

abbrev pub payloads_of : List SnapshotRow → List Bytes
payloads_of = map λ (r : SnapshotRow). r.payload

abbrev pub payloads_sent : List SnapshotChunk → List Bytes
payloads_sent [] = []
payloads_sent (c ∷ cs) = payloads_of c.rows ++ payloads_sent cs

-- Only the chunk at the end is marked as the last.
abbrev pub IsMarked : List SnapshotChunk → Type 0
IsMarked [] = ⊥
IsMarked (c ∷ []) = c.last ≡ true
IsMarked (c ∷ d ∷ ds) = (c.last ≡ false) × IsMarked (d ∷ ds)

-- A transfer without an error hands over these rows, in chunks of at most `n`.
pub record IsComplete (n : ℕ) (rows : List Bytes) (t : Transfer) : Type 0 where
  pub succeeds : t.error ≡ none
  pub complete : payloads_sent t.chunks ≡ rows
  pub marked : IsMarked t.chunks
  pub bounded : All (λ c. length c.rows ≤ n) t.chunks

-- Neither a query nor the callback fails.
pub record NeverFails (calls : Calls) : Type 0 where
  pub query : (sent : List SnapshotChunk) → calls.query sent ≡ none
  pub callback : (sent : List SnapshotChunk) (c : SnapshotChunk) → calls.callback sent c ≡ none

payloads-map {ℓ} :
    {A : Type ℓ} (f : A → SnapshotRow) (g : A → Bytes) (xs : List A)
    → ((a : A) → (f a).payload ≡ g a)
    → payloads_of (map f xs) ≡ map g xs
payloads-map f g [] h = refl
payloads-map f g (x ∷ xs) h = rw (h x, payloads-map f g xs h) refl

length-map {ℓ κ} :
    {A : Type ℓ} {B : Type κ} (f : A → B) (xs : List A) → length (map f xs) ≡ length xs
length-map f [] = refl
length-map f (x ∷ xs) = ap suc (length-map f xs)

prepend-IsMarked :
    (c : SnapshotChunk) (cs : List SnapshotChunk) → c.last ≡ false → IsMarked cs → IsMarked (c ∷ cs)
prepend-IsMarked c [] e h = absurd h
prepend-IsMarked c (d ∷ ds) e h = (e, h)

pub last_of_nonempty {ℓ} :
    {A : Type ℓ} (xs : List A) → is_empty xs ≡ false → (a : A) × (last? xs ≡ some a)
last_of_nonempty [] h = cc
last_of_nonempty (x ∷ []) h = (x, refl)
last_of_nonempty (x ∷ y ∷ ys) h = last_of_nonempty (y ∷ ys) refl

drop_all {ℓ} : {A : Type ℓ} (n : ℕ) (xs : List A) → length (take n xs) < n → take n xs ≡ xs
drop_all zero xs h = absurd (omega (arith, h))
drop_all (suc n) [] h = refl
drop_all (suc n) (x ∷ xs) h = ap (◌∷◌ x) (drop_all n xs (omega (arith, h)))

not_empty {ℓ} :
    {A : Type ℓ} (xs : List A) (n : ℕ) → 0 < n → ltb (length xs) n ≡ false → is_empty xs ≡ false
not_empty [] n h e = ground arith
not_empty (x ∷ xs) n h e = refl

answered-last :
    (c : SnapshotChunk) (more : PrimaryKey → Transfer)
    → c.last ≡ true
    → answered c none more ≡ record { chunks = c ∷ []; error = none }
unfolding answered
answered-last c more e = ground arith

answered-more :
    (c : SnapshotChunk) (more : PrimaryKey → Transfer)
    → c.last ≡ false
    → is_empty c.rows ≡ false
    → answered c none more ≡ prepend c (more (last_key c.rows))
unfolding answered
answered-more c more e f = ground arith

pub nonempty_of_last {ℓ} :
    {A : Type ℓ} (n : ℕ) (xs : List A) (a : A)
    → last? (take n xs) ≡ some a
    → (0 < n) × (0 < length xs)
nonempty_of_last zero xs a e = cc
nonempty_of_last (suc n) [] a e = cc
nonempty_of_last (suc n) (x ∷ xs) a e = omega arith

-- One round over the rows `ps` that remain, of which it reads `n`.
module _ (n : ℕ) (f : Bytes → SnapshotRow) (ps : List Bytes)
    (same : (p : Bytes) → (f p).payload ≡ p) where
  abbrev pub chunk_of : SnapshotChunk
  chunk_of = record {
    rows = map f (take n ps);
    last = ltb (length (map f (take n ps))) n;
    watermark = 0;
  }

  round_payloads : payloads_of chunk_of.rows ≡ take n ps
  round_payloads = payloads-map f (λ p. p) (take n ps) same ∙ map-self (take n ps)
    where
      map-self : (xs : List Bytes) → map (λ p. p) xs ≡ xs
      map-self [] = refl
      map-self (x ∷ xs) = ap (◌∷◌ x) (map-self xs)

  chunk_bound : length chunk_of.rows ≤ n
  chunk_bound = omega (arith, length-map f (take n ps), length-take n ps)

  pub round_ends :
      (more : PrimaryKey → Transfer)
      → chunk_of.last ≡ true
      → IsComplete n ps (answered chunk_of none more)
  round_ends more e = subst (IsComplete n ps) (sym (answered-last chunk_of more e)) (record {
    succeeds = refl;
    complete =
        append-nil (payloads_of chunk_of.rows)
        ∙ round_payloads
        ∙ drop_all n ps (ground (arith, length-map f (take n ps), e));
    marked = e;
    bounded = (chunk_bound, tt);
  })

  pub round_continues :
      (more : PrimaryKey → Transfer)
      → 0 < n
      → chunk_of.last ≡ false
      → ((p : Bytes)
          → last? (take n ps) ≡ some p
          → IsComplete n (drop n ps) (more (f p).primary_key))
      → IsComplete n ps (answered chunk_of none more)
  round_continues more h e next =
      let nonempty = not_empty (map f (take n ps)) n h e in
      let (r, er) = last_of_nonempty (map f (take n ps)) nonempty in
      let (p, ep, same_row) = last-map f (take n ps) r er in
      let key : last_key chunk_of.rows ≡ (f p).primary_key =
        ap key_or_empty er ∙ ap (λ (x : SnapshotRow). x.primary_key) same_row in
      let rest = next p ep in
      subst (IsComplete n ps) (sym (answered-more chunk_of more e nonempty)) (
        subst (λ k. IsComplete n ps (prepend chunk_of (more k))) (sym key)
          (record {
            succeeds = rest.succeeds;
            complete =
                ap (◌++◌ (payloads_of chunk_of.rows)) rest.complete
                ∙ ap (λ x. x ++ drop n ps) round_payloads
                ∙ take-append-drop n ps;
            marked = prepend-IsMarked chunk_of _ e rest.marked;
            bounded = (chunk_bound, rest.bounded);
          }))
