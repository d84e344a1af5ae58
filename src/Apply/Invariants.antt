-- ===== src/Apply/Invariants.antt =====
-- Properties of the store that each statement of a group keeps, and so the whole of `applyEventsBatch`.
use transmogr.Base.{
  String, Bool, true, false, List, [], ◌∷◌, ◌≡◌, inl, inr, refl, All, All-keep, All-append, keep,
  ◌==◌, string_eq, list_eq, Result, ok, err, ◌>>=◌, ◌>>◌, fail_if, Bool-cases,
}
use transmogr.Models.Events.{ReplicationEvent, ApplyMode}
use transmogr.Models.State.{scope_eq}
use transmogr.Apply.Rows.{ApplyError}
use transmogr.Apply.Batches.{
  Store, Groups, part_eq, scope_of, put_event, put_group, group_events, apply_upsert_batch,
  put_columns, group_columns, apply_partial_update_group, apply_column_groups,
  apply_partial_update_batch, apply_delete_batch, apply_group, apply_groups, apply_events_batch,
  is_upsert, is_update, is_delete, is_insert_only, sorted_field_keys,
}

-- What holds of the store after a statement that succeeds.
unfoldable pub Keeps : (Store → Type 0) → Result ApplyError Store → Type 0
Keeps Holds (ok s) = Holds s
Keeps Holds (err e) = Unit

module _ (Holds : Store → Type 0) where
  pub ok-Keeps : (s : Store) → Holds s → Keeps Holds (ok s)
  unfolding Keeps
  ok-Keeps s h = h

  pub bind-Keeps {ℓ} :
      {A : Type ℓ} (m : Result ApplyError A) (k : A → Result ApplyError Store)
      → ((a : A) → m ≡ ok a → Keeps Holds (k a))
      → Keeps Holds (m >>= k)
  unfolding Keeps
  bind-Keeps (ok a) k h = h a refl
  bind-Keeps (err e) k h = tt

  pub guard-Keeps :
      (b : Bool) (x : ApplyError) (m : Result ApplyError Store)
      → (b ≡ false → Keeps Holds m)
      → Keeps Holds (fail_if b x >> m)
  unfolding Keeps
  guard-Keeps true x m h = tt
  guard-Keeps false x m h = h refl

  pub then-Keeps :
      (m : Result ApplyError Store) (k : Store → Result ApplyError Store)
      → Keeps Holds m
      → ((s : Store) → Holds s → Keeps Holds (k s))
      → Keeps Holds (m >>= k)
  unfolding Keeps
  then-Keeps (ok s) k h next = next s h
  then-Keeps (err e) k h next = tt

-- The statements keep a property of the store, in one mode and for the events that are allowed.
pub record IsKept (mode : ApplyMode) (IsAllowed : ReplicationEvent → Type 0)
    (Holds : Store → Type 0) : Type 0 where
  pub upserts :
      (es : List ReplicationEvent) (s : Store)
      → All IsAllowed es
      → Holds s
      → Keeps Holds (apply_upsert_batch es mode s)
  pub updates :
      (es : List ReplicationEvent) (s : Store)
      → is_insert_only mode ≡ false
      → All IsAllowed es
      → Holds s
      → Keeps Holds (apply_partial_update_group es s)
  pub deletes :
      (es : List ReplicationEvent) (s : Store)
      → All (λ e. IsAllowed e × (is_delete e.operation ≡ true)) es
      → Holds s
      → Keeps Holds (apply_delete_batch es s)

module _ (IsAllowed : ReplicationEvent → Type 0) where
  AllOther : List (List String × List ReplicationEvent) → Type 0
  AllOther = All λ g. All IsAllowed g.1

  put_columns-AllOther :
      (e : ReplicationEvent) (gs : List (List String × List ReplicationEvent))
      → IsAllowed e
      → AllOther gs
      → AllOther (put_columns e gs)
  unfolding put_columns AllOther
  put_columns-AllOther e [] f h = ((f, tt), tt)
  put_columns-AllOther e ((cols, es) ∷ gs) f h =
      elim (Bool-cases (cols == sorted_field_keys e.fields)) [
        | inl p ↦ rw p (All-append IsAllowed es (e ∷ []) h.0 (f, tt), h.1)
        | inr p ↦ rw p (h.0, put_columns-AllOther e gs f h.1)
      ]

  group_columns-AllOther :
      (es : List ReplicationEvent) (gs : List (List String × List ReplicationEvent))
      → All IsAllowed es
      → AllOther gs
      → AllOther (group_columns es gs)
  unfolding group_columns AllOther
  group_columns-AllOther [] gs f h = h
  group_columns-AllOther (e ∷ es) gs f h =
      group_columns-AllOther es (put_columns e gs) f.1 (put_columns-AllOther e gs f.0 h)

  AllGroups : Groups → Type 0
  AllGroups = All λ g. All IsAllowed g.1

  put_event-All :
      (e : ReplicationEvent) (es : List ReplicationEvent)
      → IsAllowed e
      → All IsAllowed es
      → All IsAllowed (put_event e es)
  unfolding put_event
  put_event-All e [] f h = (f, tt)
  put_event-All e (x ∷ xs) f h = elim (Bool-cases (x.primary_key == e.primary_key)) [
    | inl p ↦ rw p (f, h.1)
    | inr p ↦ rw p (h.0, put_event-All e xs f h.1)
  ]

  put_group-AllGroups :
      (e : ReplicationEvent) (gs : Groups) → IsAllowed e → AllGroups gs → AllGroups (put_group e gs)
  unfolding put_group AllGroups
  put_group-AllGroups e [] f h = ((f, tt), tt)
  put_group-AllGroups e ((k, es) ∷ gs) f h = elim (Bool-cases (k == scope_of e)) [
    | inl p ↦ rw p (put_event-All e es f h.0, h.1)
    | inr p ↦ rw p (h.0, put_group-AllGroups e gs f h.1)
  ]

  group_events-AllGroups :
      (es : List ReplicationEvent) (gs : Groups)
      → All IsAllowed es
      → AllGroups gs
      → AllGroups (group_events es gs)
  unfolding group_events
  group_events-AllGroups [] gs f h = h
  group_events-AllGroups (e ∷ es) gs f h =
      group_events-AllGroups es (put_group e gs) f.1 (put_group-AllGroups e gs f.0 h)

  keep-deletes :
      (es : List ReplicationEvent)
      → All IsAllowed es
      → All
          (λ e. IsAllowed e × (is_delete e.operation ≡ true))
          (keep (λ e. is_delete e.operation) es)
  keep-deletes [] h = tt
  keep-deletes (e ∷ es) h = elim (Bool-cases (is_delete e.operation)) [
    | inl p ↦ rw p ((h.0, p), keep-deletes es h.1)
    | inr p ↦ rw p (keep-deletes es h.1)
  ]

  module _ (mode : ApplyMode) (Holds : Store → Type 0) (kept : IsKept mode IsAllowed Holds) where
    column_groups-Keeps :
        (gs : List (List String × List ReplicationEvent)) (s : Store)
        → is_insert_only mode ≡ false
        → AllOther gs
        → Holds s
        → Keeps Holds (apply_column_groups gs s)
    unfolding apply_column_groups AllOther
    column_groups-Keeps [] s n f h = ok-Keeps Holds s h
    column_groups-Keeps ((cols, es) ∷ gs) s n f h =
        then-Keeps Holds (apply_partial_update_group es s) (apply_column_groups gs)
          (kept.updates es s n f.0 h) λ s' h'. column_groups-Keeps gs s' n f.1 h'

    update-Keeps :
        (es : List ReplicationEvent) (s : Store)
        → All IsAllowed es
        → Holds s
        → Keeps Holds (apply_partial_update_batch es mode s)
    unfolding apply_partial_update_batch AllOther
    update-Keeps es s f h = elim (Bool-cases (is_insert_only mode)) [
      | inl e ↦ rw e (ok-Keeps Holds s h)
      | inr e ↦
          rw e (column_groups-Keeps (group_columns es []) s e (group_columns-AllOther es [] f tt) h)
    ]

    group-Keeps :
        (es : List ReplicationEvent) (s : Store)
        → All IsAllowed es
        → Holds s
        → Keeps Holds (apply_group es mode s)
    unfolding apply_group
    group-Keeps es s f h =
        then-Keeps Holds (apply_upsert_batch _ _ _) _
          (kept.upserts _ s (All-keep IsAllowed (λ e. is_upsert e.operation) es f) h)
          λ s₁ h₁.
            then-Keeps Holds (apply_partial_update_batch _ _ _) _
              (update-Keeps _ s₁ (All-keep IsAllowed (λ e. is_update e.operation) es f) h₁)
              λ s₂ h₂. kept.deletes _ s₂ (keep-deletes es f) h₂

    groups-Keeps :
        (gs : Groups) (s : Store) → AllGroups gs → Holds s → Keeps Holds (apply_groups gs mode s)
    unfolding apply_groups AllGroups
    groups-Keeps [] s f h = ok-Keeps Holds s h
    groups-Keeps ((k, es) ∷ gs) s f h =
        then-Keeps Holds (apply_group es mode s) _ (group-Keeps es s f.0 h)
          λ s' h'. groups-Keeps gs s' f.1 h'

    -- What every statement of the batch keeps, the batch keeps.
    pub apply_events_batch-Keeps :
        (es : List ReplicationEvent) (s : Store)
        → All IsAllowed es
        → Holds s
        → Keeps Holds (apply_events_batch es mode s)
    unfolding apply_events_batch AllGroups
    apply_events_batch-Keeps es s f h =
        groups-Keeps (group_events es []) s (group_events-AllGroups es [] f tt) h
