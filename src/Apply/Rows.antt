-- ===== src/Apply/Rows.antt =====
-- The statements that `buildBatchUpsertQuery` (snapshot.go), `buildBatchPartialUpdateQuery` and
-- `buildBatchDeleteQuery` (events.go) build, as functions on the rows of one application table. A row
-- is a value for each column, `none` for NULL; a table is keyed by the values of its primary key.
-- Columns have no defaults, constraints other than the primary key, or triggers, which the
-- transaction turns off. Two JSON values denote one SQL value when their bytes are equal.
use transmogr.Base.{
  String, Bool, true, false, not, ◌&&◌, ◌||◌, Option, none, some, List, [], ◌∷◌, map, keep,
  is_empty, contains, if◌then◌else◌, ◌==◌, string_eq, list_eq, nat_eq, Result, ok, err, ◌>>=◌, ◌>>◌,
  fail_if,
}
use transmogr.Base.Tables.{Table, put, remove}
use transmogr.Base.Text.{codes}
use transmogr.Models.Json.{Bytes, json_string}
use transmogr.Models.Events.{Fields}

pub record TableSpec : Type 0 where
  pub name : String
  pub primary_key : List String
  pub region_field : String

abbrev pub Row : Type 0
Row = String → Option Bytes

abbrev pub Rows : Type 0
Rows = Table (List Bytes) Row

pub data ApplyError : Type 0 where
  not_configured empty_payload argument_count : ApplyError
  missing_primary_key : String → ApplyError
  null_primary_key row_affected_twice : ApplyError

-- A decoded JSON object: its keys and values.
abbrev pub field : String → Fields → Option Bytes
field c [] = none
field c ((d, v) ∷ fs) = if d == c then some v else field c fs

abbrev pub names : Fields → List String
names = map λ (f : String × Bytes). f.0

abbrev pub sql_value : Option Bytes → Option Bytes
sql_value none = none
sql_value (some v) = if v == codes "null" then none else some v

-- json_populate_recordset: a key that is missing reads as NULL.
abbrev pub record_row : Fields → Row
record_row fs c = sql_value (field c fs)

-- provenanceValues and buildUpsertPayload: the region of the sender overrides the payload's.
unfoldable pub has_provenance : TableSpec → String → Bool
has_provenance spec region = not (spec.region_field == "") && not (region == "")

unfoldable pub build_upsert_payload : TableSpec → String → Fields → Fields
unfolding has_provenance
build_upsert_payload spec region fs =
    if has_provenance spec region then (spec.region_field, json_string region) ∷ fs else fs

-- The values of the key columns, if none is NULL.
abbrev key_values : List String → Row → Option (List Bytes)
key_values [] row = some []
key_values (c ∷ cs) row = elim (row c) [
  | none ↦ none
  | some v ↦ elim (key_values cs row) [ none ↦ none | some vs ↦ some (v ∷ vs) ]
]

abbrev pub row_key : TableSpec → Row → Option (List Bytes)
row_key spec = key_values spec.primary_key

abbrev pub same_value : Option Bytes → Option Bytes → Bool
same_value (some v) (some w) = v == w
same_value none w = false
same_value (some v) none = false

abbrev is_null : Option Bytes → Bool
is_null none = true
is_null (some v) = false

-- (target.region IS NULL OR target.region = EXCLUDED.region), where there is a region column
unfoldable pub owner_region_condition : TableSpec → Row → Option Bytes → Bool
owner_region_condition spec target region =
    spec.region_field == ""
    || is_null (target spec.region_field)
    || same_value (target spec.region_field) region

-- The columns of the statement, and those that it assigns on a conflict.
pub record UpsertQuery : Type 0 where
  pub columns : List String
  pub assigned : List String
  pub does_update : Bool

first_missing : List String → List String → Result ApplyError (Unit {0})
first_missing [] columns = ok tt
first_missing (c ∷ cs) columns =
    let rest = first_missing cs columns in
    if contains c columns then rest else err (missing_primary_key c)

-- `is_null_payload` is the payload nil, which does not decode.
unfoldable pub build_batch_upsert_query : TableSpec → Fields → Bool → Result ApplyError UpsertQuery
unfolding first_missing
build_batch_upsert_query spec sample allow_update = do
  fail_if (is_empty sample) empty_payload
  first_missing spec.primary_key (names sample)
  let assigned = keep (λ c. not (contains c spec.primary_key)) (names sample)
  ok (record {
    columns = names sample;
    assigned = assigned;
    does_update = not (is_empty assigned) && allow_update;
  })

abbrev pub selected : List String → Row → Row
selected columns src c = if contains c columns then src c else none

abbrev overwrite : List String → Row → Row → Row
overwrite columns target src c = if contains c columns then src c else target c

-- One row of INSERT … ON CONFLICT (primary key) DO UPDATE … WHERE …, or DO NOTHING.
insert_row : TableSpec → UpsertQuery → Row → List Bytes → Option Row → Rows → Rows
insert_row spec q src key none rows = put key src rows
insert_row spec q src key (some target) rows =
    if q.does_update && owner_region_condition spec target (src spec.region_field)
    then put key (overwrite q.assigned target src) rows
    else rows

-- A NULL in the key violates its NOT NULL constraint.
unfoldable pub insert_at :
    TableSpec → UpsertQuery → Row → Option (List Bytes) → Rows → Result ApplyError Rows
unfolding insert_row
insert_at spec q src none rows = err null_primary_key
insert_at spec q src (some key) rows = ok (insert_row spec q src key (rows key) rows)

unfoldable pub upsert_row : TableSpec → UpsertQuery → Fields → Rows → Result ApplyError Rows
unfolding insert_at
upsert_row spec q payload rows =
    let src = selected q.columns (record_row payload) in
    insert_at spec q src (row_key spec src) rows

-- Two payloads of one key, which PostgreSQL refuses, do not come here: a batch has one event for a
-- key.
unfoldable pub upsert_rows : TableSpec → UpsertQuery → List Fields → Rows → Result ApplyError Rows
unfolding upsert_row
upsert_rows spec q [] rows = ok rows
upsert_rows spec q (p ∷ ps) rows = upsert_row spec q p rows >>= upsert_rows spec q ps

-- One row of UPDATE … FROM … WHERE keys match [AND target.region = $2]; a NULL key matches nothing.
update_found : TableSpec → String → List String → Row → List Bytes → Option Row → Rows → Rows
update_found spec region assigned src key none rows = rows
update_found spec region assigned src key (some target) rows =
    if spec.region_field == "" || same_value (target spec.region_field) (some (json_string region))
    then put key (overwrite assigned target src) rows
    else rows

unfoldable pub update_at :
    TableSpec → String → List String → Row → Option (List Bytes) → Rows → Rows
unfolding update_found
update_at spec region assigned src none rows = rows
update_at spec region assigned src (some key) rows =
    update_found spec region assigned src key (rows key) rows

unfoldable pub update_row : TableSpec → String → List String → Fields → Rows → Rows
unfolding update_at
update_row spec region assigned payload rows =
    let src = record_row payload in update_at spec region assigned src (row_key spec src) rows

unfoldable pub update_rows : TableSpec → String → List String → List Fields → Rows → Rows
unfolding update_row
update_rows spec region assigned [] rows = rows
update_rows spec region assigned (p ∷ ps) rows =
    update_rows spec region assigned ps (update_row spec region assigned p rows)

-- One row of DELETE … USING … WHERE keys match [AND (target.region IS NULL OR target.region = $2)].
delete_found : TableSpec → String → List Bytes → Option Row → Rows → Rows
unfolding owner_region_condition
delete_found spec region key none rows = rows
delete_found spec region key (some target) rows =
    if owner_region_condition spec target (some (json_string region)) then remove key rows else rows

unfoldable pub delete_at : TableSpec → String → Option (List Bytes) → Rows → Rows
unfolding delete_found
delete_at spec region none rows = rows
delete_at spec region (some key) rows = delete_found spec region key (rows key) rows

unfoldable pub delete_row : TableSpec → String → Fields → Rows → Rows
unfolding delete_at
delete_row spec region payload rows = delete_at spec region (row_key spec (record_row payload)) rows

unfoldable pub delete_rows : TableSpec → String → List Fields → Rows → Rows
unfolding delete_row
delete_rows spec region [] rows = rows
delete_rows spec region (p ∷ ps) rows = delete_rows spec region ps (delete_row spec region p rows)
