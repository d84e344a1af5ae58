-- ===== src/Server/Access.antt =====
-- internal/transport/grpc/server/handshake.go: the region that a consumer claims, against the
-- configuration and its TLS certificate.
use mathlib.Core.Path.{subst}
use transmogr.Base.{
  String, ◌≡◌, ◌≢◌, ◌⊎◌, ◌↔◌, inl, inr, refl, Bool, true, false, not, ◌&&◌, Option, none, some,
  List, [], ◌∷◌, arith, contains, is_empty, if◌then◌else◌, ◌==◌, string_eq, eq_iff, beq_refl,
  beq→eq, Result, ok, err, ◌>>=◌, ◌>>◌, fail_if, bind-eq-ok, Bool-cases,
}
use transmogr.Protocol.{HandshakeMessage, ConsumeRequest}
use transmogr.Protocol.Handshake.{
  HandshakeConfig, HandshakeError, check_handshake_compatibility, check_handshake_compatibility_iff,
  Agrees,
}

-- A URI of the certificate: its scheme, its host, and its path without the slash in front.
pub record CertUri : Type 0 where
  pub scheme : String
  pub host : String
  pub region : String

-- The connection: without TLS, or with the URIs of the first client certificate, if there is one.
pub data Connection : Type 0 where
  plain : Connection
  tls : Option (List CertUri) → Connection

pub record Handler : Type 0 where
  pub local_region : String
  pub allowed_peer_regions : List String

pub data AccessError : Type 0 where
  region_required region_is_local region_not_allowed no_client_certificate : AccessError
  missing_region_uri : AccessError
  certificate_mismatch : String → String → AccessError
  incompatible : HandshakeError → AccessError

unfoldable pub region_of_uris : List CertUri → Result AccessError String
region_of_uris [] = err missing_region_uri
region_of_uris (u ∷ us) =
    let rest = region_of_uris us in
    if u.scheme == "transmogr" && u.host == "region" && not (u.region == "")
    then ok u.region
    else rest

unfoldable pub cert_region_from_context : Connection → Result AccessError String
unfolding region_of_uris
cert_region_from_context plain = ok ""
cert_region_from_context (tls none) = err no_client_certificate
cert_region_from_context (tls (some uris)) = region_of_uris uris

unfoldable pub validate_remote_region :
    Handler → Connection → String → Result AccessError (Unit {0})
unfolding cert_region_from_context
validate_remote_region h conn remote = do
  fail_if (remote == "") region_required
  fail_if (not (h.local_region == "") && remote == h.local_region) region_is_local
  fail_if (not (is_empty h.allowed_peer_regions) && not (contains remote h.allowed_peer_regions))
      region_not_allowed
  cert ← cert_region_from_context conn
  fail_if (not (cert == "") && not (cert == remote)) (certificate_mismatch remote cert)

or_incompatible : Result HandshakeError (Unit {0}) → Result AccessError (Unit {0})
or_incompatible (ok x) = ok tt
or_incompatible (err e) = err (incompatible e)

abbrev pub handshake_of : ConsumeRequest → HandshakeMessage
handshake_of req = record {
  region = req.region;
  version = req.version;
  configuration = req.configuration;
}

-- handleConsumeRequest: the region of an accepted consumer.
unfoldable pub handle_consume_request :
    (String → Option HandshakeConfig)
    → Handler
    → Connection
    → HandshakeMessage
    → ConsumeRequest
    → Result AccessError String
unfolding or_incompatible
handle_consume_request parse h conn local req = do
  compatible ← or_incompatible (check_handshake_compatibility parse local (handshake_of req))
  valid ← validate_remote_region h conn req.region
  ok req.region

-- The certificate, where there is one, names this region first among its region URIs.
abbrev pub Certifies : Connection → String → Type 0
Certifies plain region = Unit
Certifies (tls none) region = ⊥
Certifies (tls (some uris)) region = region_of_uris uris ≡ ok region

-- The claim of a region is in order.
pub record IsAdmitted (h : Handler) (conn : Connection) (region : String) : Type 0 where
  pub named : (region == "") ≡ false
  pub remote : region ≢ h.local_region
  pub allowed :
      (is_empty h.allowed_peer_regions ≡ true) ⊎ (contains region h.allowed_peer_regions ≡ true)
  pub certified : Certifies conn region

passes : (b : Bool) (e : AccessError) → fail_if b e ≡ ok tt → b ≡ false
passes true e h = cc
passes false e h = refl

found_region-named :
    (uris : List CertUri) (region : String)
    → region_of_uris uris ≡ ok region
    → (region == "") ≡ false
unfolding region_of_uris
found_region-named [] region h = cc
found_region-named (u ∷ us) region h =
    ground (arith, h, eq_iff u.region "", eq_iff region "", found_region-named us region)

-- The last two steps: the region of the certificate, and its comparison.
certified_region :
    (conn : Connection) (remote cert : String)
    → cert_region_from_context conn ≡ ok cert
    → (not (cert == "") && not (cert == remote)) ≡ false
    → Certifies conn remote
unfolding cert_region_from_context
certified_region plain remote cert e h = tt
certified_region (tls none) remote cert e h = cc
certified_region (tls (some uris)) remote cert e h =
    subst (λ x. region_of_uris uris ≡ ok x)
      (beq→eq cert remote (ground (arith, h, found_region-named uris cert e))) e

certificate_passes :
    (conn : Connection) (remote : String)
    → Certifies conn remote
    → (cert_region_from_context conn >>= λ cert.
        fail_if (not (cert == "") && not (cert == remote)) (certificate_mismatch remote cert))
      ≡ ok tt
unfolding cert_region_from_context
certificate_passes plain remote h = refl
certificate_passes (tls none) remote h = absurd h
certificate_passes (tls (some uris)) remote h = rw (h, beq_refl remote) (ground arith)

admitted :
    (h : Handler) (conn : Connection) (region : String)
    → validate_remote_region h conn region ≡ ok tt
    → IsAdmitted h conn region
unfolding validate_remote_region
admitted h conn region e =
    let (a, first, e₁) = bind-eq-ok (fail_if (region == "") region_required) _ tt e in
    let (b, second, e₂) =
      bind-eq-ok (fail_if (not (h.local_region == "") && region == h.local_region) region_is_local)
        _ tt e₁ in
    let (c, third, e₃) =
      bind-eq-ok
        (fail_if
          (not (is_empty h.allowed_peer_regions) && not (contains region h.allowed_peer_regions))
          region_not_allowed)
        _ tt e₂ in
    let (cert, fourth, e₄) = bind-eq-ok (cert_region_from_context conn) _ tt e₃ in
    let is_named = passes _ _ first in
    let is_remote = passes _ _ second in
    let is_allowed = passes _ _ third in
    record {
      named = is_named;
      remote = λ same. ground (
        arith,
        same,
        is_named,
        is_remote,
        eq_iff region h.local_region,
        eq_iff h.local_region "",
        eq_iff region "",
      );
      allowed = elim (Bool-cases (is_empty h.allowed_peer_regions)) [
        | inl none_given ↦ inl none_given
        | inr given ↦ inr (ground (arith, given, is_allowed))
      ];
      certified = certified_region conn region cert fourth (passes _ _ e₄);
    }

admits :
    (h : Handler) (conn : Connection) (region : String)
    → IsAdmitted h conn region
    → validate_remote_region h conn region ≡ ok tt
unfolding validate_remote_region
admits h conn region a =
    let not_local : (region == h.local_region) ≡ false =
      ground (arith, a.remote, eq_iff region h.local_region) in
    let is_allowed : (not (is_empty h.allowed_peer_regions)
          && not (contains region h.allowed_peer_regions))
        ≡ false =
      ground (arith, a.allowed) in
    let not_local' : (not (h.local_region == "") && region == h.local_region) ≡ false =
      ground (arith, not_local) in
    rw (a.named, not_local', is_allowed) (certificate_passes conn region a.certified)

same_ok : (a b : String) → ◌≡◌ {A = Result AccessError String} (ok a) (ok b) → b ≡ a
same_ok a b e = cc

accepted :
    (parse : String → Option HandshakeConfig) (h : Handler) (conn : Connection)
    (local : HandshakeMessage) (req : ConsumeRequest) (region : String)
    (checked : Result HandshakeError (Unit {0}))
    → check_handshake_compatibility parse local (handshake_of req) ≡ checked
    → handle_consume_request parse h conn local req ≡ ok region
    → Agrees parse local (handshake_of req) × IsAdmitted h conn req.region × (region ≡ req.region)
unfolding handle_consume_request
accepted parse h conn local req region (err x) e f = absurd (ground (arith, e, f))
accepted parse h conn local req region (ok x) e f =
    let (a, first, rest) =
      bind-eq-ok (or_incompatible (check_handshake_compatibility parse local (handshake_of req)))
        (λ x. validate_remote_region h conn req.region >>= λ valid. ok req.region) region f in
    let (b, second, same) =
      bind-eq-ok (validate_remote_region h conn req.region) (λ valid. ok req.region) region rest in
    (
      (check_handshake_compatibility_iff parse local (handshake_of req)).0 e,
      admitted h conn req.region second,
      same_ok req.region region same,
    )

-- A consumer is accepted exactly when its handshake agrees with the local one on the tables and the
-- version, and the region that it claims is not empty, is not the local one, is on the list of
-- allowed regions if that is not empty, and is the first region that its certificate names if the
-- connection has TLS; the accepted region is then the one claimed.
pub handle_consume_request_iff :
    (parse : String → Option HandshakeConfig) (h : Handler) (conn : Connection)
    (local : HandshakeMessage) (req : ConsumeRequest) (region : String)
    → (handle_consume_request parse h conn local req ≡ ok region) ↔ (
        Agrees parse local (handshake_of req)
        × IsAdmitted h conn req.region
        × (region ≡ req.region))
unfolding handle_consume_request
handle_consume_request_iff parse h conn local req region = (
  accepted parse h conn local req region
      (check_handshake_compatibility parse local (handshake_of req)) refl,
  λ (agrees, valid, same).
      rw
        (
          (check_handshake_compatibility_iff parse local (handshake_of req)).1 agrees,
          admits h conn req.region valid,
          same,
        )
        refl,
)
