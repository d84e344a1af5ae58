-- ===== src/Protocol/Handshake.antt =====
-- `CheckHandshakeCompatibility` of internal/transport/grpc/protocol/handshake.go. A configuration is
-- parsed by the parameter `parse`, for json.Unmarshal.
use mathlib.Core.List.{Perm}
use mathlib.Core.HLevel.{hedberg}
use transmogr.Base.{
  String, ◌≡◌, ◌↔◌, refl, Bool, true, false, not, Option, none, some, List, [], map, keep, arith,
  contains, ◌==◌, string_eq, list_eq, list_beq_iff, eq_iff, beq_refl, beq→eq, Result, ok, err,
  ◌>>=◌, ◌>>◌, fail_if, bind-eq-ok, Bool-cases, inl, inr,
}
use transmogr.Base.Sorting.{sort_by}
use transmogr.Base.Sorting.Unique.{sort_by-eq_iff}
use transmogr.Base.Text.{cmp_str, cmp_str-Lawful, cmp_str-eq}
use transmogr.Protocol.{HandshakeMessage}

pub record ColumnInfo : Type 0 where
  pub name : String
  pub data_type : String

pub record HandshakeTable : Type 0 where
  pub name : String
  pub primary_key : List String
  pub region_field : String
  pub columns : List ColumnInfo

pub record HandshakeConfig : Type 0 where
  pub source : String
  pub tables : List HandshakeTable

pub data HandshakeError : Type 0 where
  invalid_configuration : HandshakeError
  tables_differ : List String → List String → HandshakeError
  versions_differ : String → String → HandshakeError

unfoldable pub handshake_table_names : HandshakeConfig → List String
handshake_table_names cfg = map (λ (t : HandshakeTable). t.name) cfg.tables

unfoldable pub sorted_copy : List String → List String
sorted_copy = sort_by cmp_str

unfoldable pub same_tables : List String → List String → Bool
unfolding sorted_copy
same_tables left right = sorted_copy left == sorted_copy right

unfoldable pub table_diff : List String → List String → List String × List String
table_diff local remote =
    (keep (λ t. not (contains t remote)) local, keep (λ t. not (contains t local)) remote)

-- The local configuration that does not parse counts as empty.
unfoldable pub parsed_or_empty : Option HandshakeConfig → HandshakeConfig
parsed_or_empty none = record { source = ""; tables = [] }
parsed_or_empty (some cfg) = cfg

or_invalid : Option HandshakeConfig → Result HandshakeError HandshakeConfig
or_invalid none = err invalid_configuration
or_invalid (some cfg) = ok cfg

check_tables : List String → List String → Result HandshakeError (Unit {0})
unfolding same_tables table_diff
check_tables local remote =
    let (only_local, only_remote) = table_diff local remote in
    fail_if (not (same_tables local remote)) (tables_differ only_local only_remote)

unfoldable pub check_handshake_compatibility :
    (String → Option HandshakeConfig)
    → HandshakeMessage
    → HandshakeMessage
    → Result HandshakeError (Unit {0})
unfolding parsed_or_empty or_invalid check_tables handshake_table_names
check_handshake_compatibility parse local remote = do
  remote_cfg ← or_invalid (parse remote.configuration)
  check_tables (handshake_table_names (parsed_or_empty (parse local.configuration)))
      (handshake_table_names remote_cfg)
  fail_if (not (remote.version == local.version)) (versions_differ local.version remote.version)

String-set : IsSet String
String-set = hedberg λ s t. elim (Bool-cases (s == t)) [
  | inl e ↦ yes (beq→eq s t e)
  | inr e ↦ no λ p. ground (arith, e, p, eq_iff s t)
]

-- The same tables in any order, each as often.
same_tables_iff : (left right : List String) → (same_tables left right ≡ true) ↔ Perm left right
unfolding same_tables sorted_copy
same_tables_iff left right =
    let sorted = list_beq_iff (sort_by cmp_str left) (sort_by cmp_str right) in
    let perm = sort_by-eq_iff cmp_str cmp_str-Lawful cmp_str-eq String-set left right in
    ((λ h. perm.0 (sorted.0 h)), (λ p. sorted.1 (perm.1 p)))

passes : (b : Bool) (e : HandshakeError) → fail_if (not b) e ≡ ok tt → b ≡ true
passes true e h = refl
passes false e h = cc

-- The peer's configuration parses, and agrees on the tables and the version.
abbrev pub Agrees : (String → Option HandshakeConfig) → HandshakeMessage → HandshakeMessage → Type 0
Agrees parse local remote =
    (cfg : HandshakeConfig) × (parse remote.configuration ≡ some cfg)
    × Perm (handshake_table_names (parsed_or_empty (parse local.configuration)))
        (handshake_table_names cfg)
    × (remote.version ≡ local.version)

check-Agrees :
    (parse : String → Option HandshakeConfig) (local remote : HandshakeMessage)
    (parsed : Option HandshakeConfig)
    → parse remote.configuration ≡ parsed
    → check_handshake_compatibility parse local remote ≡ ok tt
    → Agrees parse local remote
unfolding check_handshake_compatibility
check-Agrees parse local remote none e h = absurd (ground (arith, e, h))
check-Agrees parse local remote (some cfg) e h =
    let names = handshake_table_names (parsed_or_empty (parse local.configuration)) in
    let later = λ (x : Unit {0}).
      fail_if (not (remote.version == local.version))
        (versions_differ local.version remote.version) in
    let checked : (check_tables names (handshake_table_names cfg) >>= later) ≡ ok tt = rw e at h in
    let (x, tables, version) =
      bind-eq-ok (check_tables names (handshake_table_names cfg)) later tt checked in
    (
      cfg,
      e,
      (same_tables_iff names (handshake_table_names cfg)).0 (passes _ _ tables),
      beq→eq remote.version local.version (passes _ _ version),
    )

-- The handshake is accepted exactly when the peer's configuration parses, names the same tables as
-- the local one in any order, and the versions are equal. Nothing else of the two configurations is
-- compared.
pub check_handshake_compatibility_iff :
    (parse : String → Option HandshakeConfig) (local remote : HandshakeMessage)
    → (check_handshake_compatibility parse local remote ≡ ok tt) ↔ Agrees parse local remote
unfolding check_handshake_compatibility
check_handshake_compatibility_iff parse local remote = (
  check-Agrees parse local remote (parse remote.configuration) refl,
  λ (cfg, e, p, v). rw (e, (same_tables_iff _ _).1 p, v, beq_refl local.version) refl,
)
