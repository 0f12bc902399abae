-- ===== src/Channel/Handshake.antt =====
-- The handshake of src/companion/channel/index.ts: `initiateChannel`, `acceptChannel` and what they
-- call. The ephemeral keys and the nonces that the platform draws are arguments.
use agent_tab_bridge.Base.{
  ℕ, Bool, false, not, ◌&&◌, ◌||◌, Option, none, some, List, [], ◌∷◌, ◌++◌, ltb, ◌==◌,
  if◌then◌else◌, length, nat_eq, list_eq, nat_beq,
}
use agent_tab_bridge.Base.Results.{Result, ok, err, ◌>>=◌, ◌>>◌, throw_if}
use agent_tab_bridge.Base.Text.{Str, codes, all_of, is_alphanumeric}
use agent_tab_bridge.Access.Order.{str_order}
use agent_tab_bridge.Channel.Defs.{Bytes, Crypto, Direction, Channel, new_direction}

-- What the platform and the signatures of src/companion/identity.ts offer. A private key is its
-- bytes; `parse_key` is `none` for a key that is no valid P-256 key, `fingerprint` for a text that is
-- no key.
pub record KeyCrypto : Type 0 where
  pub channel_crypto : Crypto
  pub sha256 : Bytes → Bytes
  pub salted_hkdf : Bytes → Bytes → Str → Bytes
  pub public_key : Bytes → Str
  pub parse_key : Str → Option Bytes
  pub diffie_hellman : Bytes → Bytes → Bytes
  pub sign : Str → Bytes → Str
  pub verify : Str → Bytes → Str → Bool
  pub fingerprint : Str → Option Str
  pub base64url : Bytes → Str
  pub utf8 : Str → Bytes
  pub quoted : Str → Str

pub data HandshakeFailure : Type 0 where
  protocol_downgrade context_mismatch key_mismatch handshake_state invalid_options :
      HandshakeFailure

abbrev pub Handshaken : Type 0 → Type 0
Handshaken A = Result {0, 0} HandshakeFailure A

abbrev pub channel_protocol_version : Str
channel_protocol_version = codes "atb-channel-v1"

abbrev pub channel_cipher_suite : Str
channel_cipher_suite = codes "ECDH-P256-HKDF-SHA256-AES-256-GCM-P256SIG"

abbrev pub channel_max_frame_bytes : ℕ
channel_max_frame_bytes = 65536

abbrev pub channel_default_frames_per_epoch : ℕ
channel_default_frames_per_epoch = 16777216

abbrev pub u32_max : ℕ
u32_max = 4294967295

-- `base64Url`.
unfoldable pub is_base64url : Str → Bool
is_base64url value =
    not (length value == 0)
    && not (ltb 8192 (length value))
    && all_of (λ c. is_alphanumeric c || nat_beq c b'_' || nat_beq c b'-') value

-- The values that the channel encodes: texts, and objects of values.
mutual
  pub data Value : Type 0 where
    text : Str → Value
    object : Members → Value

  pub data Members : Type 0 where
    end : Members
    member : Str → Value → Members → Members

abbrev place_member : Str × Str → List (Str × Str) → List (Str × Str)
place_member (k, v) [] = (k, v) ∷ []
place_member (k, v) ((j, w) ∷ ms) =
    let rest = place_member (k, v) ms in
    if str_order.less j k then (j, w) ∷ rest else (k, v) ∷ (j, w) ∷ ms

abbrev join_members : List (Str × Str) → Str
join_members [] = []
join_members ((k, v) ∷ []) = k ++ codes ":" ++ v
join_members ((k, v) ∷ m ∷ ms) = k ++ codes ":" ++ v ++ codes "," ++ join_members (m ∷ ms)

abbrev quote_keys : KeyCrypto → List (Str × Str) → List (Str × Str)
quote_keys kc [] = []
quote_keys kc ((k, v) ∷ ms) = (kc.quoted k, v) ∷ quote_keys kc ms

-- `canonicalJson`: the members of an object stand in the order of their keys.
unfoldable mutual
  pub canonical_json : KeyCrypto → Value → Str
  canonical_json kc (text s) = kc.quoted s
  canonical_json kc (object ms) =
      codes "{" ++ join_members (quote_keys kc (sorted_members kc ms)) ++ codes "}"

  sorted_members : KeyCrypto → Members → List (Str × Str)
  sorted_members kc end = []
  sorted_members kc (member k v ms) = place_member (k, canonical_json kc v) (sorted_members kc ms)

-- `ChannelEndpointOptions`, and `NormalizedOptions` after the tests.
pub record Options : Type 0 where
  pub identity_public : Str
  pub identity_private : Str
  pub peer_public : Str
  pub session_id : Str
  pub context : Bytes
  pub max_frame_bytes : Option ℕ
  pub frames_per_epoch : Option ℕ
  pub max_epoch : Option ℕ

pub record Endpoint : Type 0 where
  pub identity_public : Str
  pub identity_private : Str
  pub peer_public : Str
  pub peer_fingerprint : Str
  pub local_fingerprint : Str
  pub session_id : Str
  pub context : Bytes
  pub max_frame_bytes : ℕ
  pub frames_per_epoch : ℕ
  pub max_epoch : ℕ

abbrev pub or_default : Option ℕ → ℕ → ℕ
or_default none n = n
or_default (some m) n = m

abbrev pub required {ℓ} : {A : Type ℓ} → HandshakeFailure → Option A → Result HandshakeFailure A
required e none = err e
required e (some a) = ok a

abbrev pub frame_bytes_of : Options → ℕ
frame_bytes_of o = or_default o.max_frame_bytes channel_max_frame_bytes

abbrev pub frames_of : Options → ℕ
frames_of o = or_default o.frames_per_epoch channel_default_frames_per_epoch

abbrev pub epochs_of : Options → ℕ
epochs_of o = or_default o.max_epoch u32_max

-- The endpoint of options that have been tested, with the fingerprints of the peer and of itself.
abbrev pub endpoint_of : Options → Str → Str → Endpoint
endpoint_of o peer local = record {
  identity_public = o.identity_public;
  identity_private = o.identity_private;
  peer_public = o.peer_public;
  peer_fingerprint = peer;
  local_fingerprint = local;
  session_id = o.session_id;
  context = o.context;
  max_frame_bytes = frame_bytes_of o;
  frames_per_epoch = frames_of o;
  max_epoch = epochs_of o;
}

-- `normalizeOptions`.
unfoldable pub normalize_options : KeyCrypto → Options → Handshaken Endpoint
normalize_options kc o = do
  throw_if (length o.session_id == 0 || ltb 256 (length o.session_id)) invalid_options
  throw_if (length o.context == 0 || ltb 65536 (length o.context)) invalid_options
  throw_if (frame_bytes_of o == 0 || ltb channel_max_frame_bytes (frame_bytes_of o)) invalid_options
  throw_if (ltb (frames_of o) 2 || ltb 4294967296 (frames_of o)) invalid_options
  throw_if (ltb u32_max (epochs_of o)) invalid_options
  peer ← required invalid_options (kc.fingerprint o.peer_public)
  local ← required invalid_options (kc.fingerprint o.identity_public)
  ok (endpoint_of o peer local)

pub record Hello : Type 0 where
  pub protocol_version : Str
  pub cipher_suite : Str
  pub session_id : Str
  pub ephemeral_public_key : Str
  pub nonce : Str

pub record Accept : Type 0 where
  pub protocol_version : Str
  pub cipher_suite : Str
  pub session_id : Str
  pub ephemeral_public_key : Str
  pub nonce : Str
  pub signature : Str

pub record Confirm : Type 0 where
  pub session_id : Str
  pub signature : Str

pub data Role : Type 0 where
  initiator responder : Role

abbrev principal : Str → Str → Value
principal fingerprint spki = object (
    member (codes "principalId") (text fingerprint)
      (member (codes "publicKeySpki") (text spki) end))

-- `channelTranscript`.
unfoldable pub channel_transcript :
    KeyCrypto → Str → Bytes → Str × Str → Str × Str → Str × Str → Str × Str → Bytes
unfolding canonical_json
channel_transcript kc session_id context (fi, ki) (fr, kr) (ei, er) (ni, nr) = kc.utf8 (
    canonical_json kc (
      object (
        member (codes "type") (text (codes "atb-channel-transcript-v1")) (
          member (codes "protocolVersion") (text channel_protocol_version) (
            member (codes "cipherSuite") (text channel_cipher_suite) (
              member (codes "sessionId") (text session_id) (
                member (codes "context") (text (kc.base64url context)) (
                  member (codes "initiator") (principal fi ki) (
                    member (codes "responder") (principal fr kr) (
                      member (codes "initiatorEphemeralPublicKey") (text ei) (
                        member (codes "responderEphemeralPublicKey") (text er) (
                          member (codes "initiatorNonce") (text ni)
                            (member (codes "responderNonce") (text nr) end)))))))))))))

abbrev role_name : Role → Str
role_name initiator = codes "initiator"
role_name responder = codes "responder"

-- `signatureBody`.
unfoldable pub signature_body : KeyCrypto → Role → Bytes → Bytes
unfolding canonical_json
signature_body kc signer transcript = kc.utf8 (
    canonical_json kc (
      object (
        member (codes "type") (text (codes "atb-channel-signature-v1")) (
          member (codes "signer") (text (role_name signer))
            (member (codes "transcript") (text (kc.base64url transcript)) end)))))

-- `deriveDirections`, by role: the directions to send and to receive.
unfoldable pub derive_directions : KeyCrypto → Bytes → Bytes → Role → Direction × Direction
derive_directions kc shared_secret transcript role =
    let crypto = kc.channel_crypto in
    let master =
      kc.salted_hkdf shared_secret (kc.sha256 transcript) (codes "atb-channel-v1 master") in
    let i2r = new_direction crypto (crypto.hkdf master (codes "atb-channel-v1 i2r")) in
    let r2i = new_direction crypto (crypto.hkdf master (codes "atb-channel-v1 r2i")) in
    elim role [ initiator ↦ (i2r, r2i) | responder ↦ (r2i, i2r) ]

-- The constructor of `SecureSessionChannel`.
unfoldable pub new_channel : KeyCrypto → Role → Endpoint → Bytes → Bytes → Channel
new_channel kc role e shared_secret transcript =
    let (send, recv) = derive_directions kc shared_secret transcript role in
    record {
      send_direction = send;
      recv_direction = recv;
      max_frame_bytes = e.max_frame_bytes;
      frames_per_epoch = e.frames_per_epoch;
      max_epoch = e.max_epoch;
      local_closed = false;
      peer_closed = false;
      failed = false;
    }
