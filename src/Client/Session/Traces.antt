-- ===== src/Client/Session/Traces.antt =====
-- What a session may do, by its trace: nothing before a handshake that is accepted.
use transmogr.Base.{String, ◌≡◌, refl, false, Option, List, [], ◌∷◌, All, err}
use transmogr.Protocol.Handshake.{HandshakeError, check_handshake_compatibility}
use transmogr.Protocol.Messages.{
  ConsumeResponse, handshake, snapshot_chunk, snapshot_complete, event_batch, transaction_batch,
  heartbeat,
}
use transmogr.Client.Session.{Session, Receiver, Step, handle_handshake, handle_message, recv_loop}

-- A handshake that is refused, or any other message.
abbrev pub IsUnwelcome : Session → ConsumeResponse → Type 0
IsUnwelcome s (handshake hs) =
    (e : HandshakeError) × (check_handshake_compatibility s.parse s.local_handshake hs ≡ err e)
IsUnwelcome s (snapshot_chunk table rows last watermark) = Unit
IsUnwelcome s (snapshot_complete table) = Unit
IsUnwelcome s (event_batch sequence events) = Unit
IsUnwelcome s (transaction_batch tx sequence events) = Unit
IsUnwelcome s (heartbeat at) = Unit

abbrev pub HasNoEffect : Receiver → Step → Type 0
HasNoEffect r step = (step.receiver ≡ r) × (step.actions ≡ [])

-- As long as no handshake of the peer is accepted, whatever it sends, a session leaves the database
-- as it was, applies nothing and acknowledges nothing.
pub recv_loop-HasNoEffect :
    (s : Session) (ending : Option String) (messages : List ConsumeResponse) (r : Receiver)
    → All (IsUnwelcome s) messages
    → HasNoEffect r (recv_loop s ending false messages r)
unfolding recv_loop handle_message handle_handshake
recv_loop-HasNoEffect s ending [] r h = (refl, refl)
recv_loop-HasNoEffect s ending (handshake hs ∷ ms) r h =
    let (e, refused) = h.0 in rw refused (refl, refl)
recv_loop-HasNoEffect s ending (snapshot_chunk table rows last watermark ∷ ms) r h =
    recv_loop-HasNoEffect s ending ms r h.1
recv_loop-HasNoEffect s ending (snapshot_complete table ∷ ms) r h =
    recv_loop-HasNoEffect s ending ms r h.1
recv_loop-HasNoEffect s ending (event_batch sequence events ∷ ms) r h =
    recv_loop-HasNoEffect s ending ms r h.1
recv_loop-HasNoEffect s ending (transaction_batch tx sequence events ∷ ms) r h =
    recv_loop-HasNoEffect s ending ms r h.1
recv_loop-HasNoEffect s ending (heartbeat at ∷ ms) r h = recv_loop-HasNoEffect s ending ms r h.1
