-- ===== src/Channel/Parties.antt =====
-- The two parties of the handshake of src/companion/channel/index.ts: `initiateChannel`,
-- `acceptChannel` and their `complete`.
use agent_tab_bridge.Base.{Bool, true, false, not, ◌||◌, ◌==◌, list_eq, nat_eq}
use agent_tab_bridge.Base.Results.{ok, err, ◌>>=◌, ◌>>◌, throw_if}
use agent_tab_bridge.Base.Text.{Str}
use agent_tab_bridge.Channel.Defs.{Bytes, Channel}
use agent_tab_bridge.Channel.Handshake.{
  KeyCrypto, protocol_downgrade, context_mismatch, key_mismatch, handshake_state, Handshaken,
  channel_protocol_version, channel_cipher_suite, is_base64url, required, Options, Endpoint,
  normalize_options, Hello, Accept, Confirm, initiator, responder, channel_transcript,
  signature_body, new_channel,
}

-- What `complete` of either party refers to, and whether it has been run.
pub record Initiator : Type 0 where
  pub endpoint : Endpoint
  pub ephemeral : Bytes
  pub hello : Hello
  pub completed : Bool

pub record Responder : Type 0 where
  pub endpoint : Endpoint
  pub ephemeral : Bytes
  pub peer_ephemeral : Bytes
  pub transcript : Bytes
  pub completed : Bool

module _ (kc : KeyCrypto) where
  -- The first message.
  abbrev pub first_hello : Endpoint → Bytes → Str → Hello
  first_hello e ephemeral nonce = record {
    protocol_version = channel_protocol_version;
    cipher_suite = channel_cipher_suite;
    session_id = e.session_id;
    ephemeral_public_key = kc.public_key ephemeral;
    nonce = nonce;
  }

  -- `initiateChannel`.
  unfoldable pub initiate_channel : Options → Bytes → Str → Handshaken (Initiator × Hello)
  initiate_channel options ephemeral nonce = do
    e ← normalize_options kc options
    let hello = first_hello e ephemeral nonce
    ok (record { endpoint = e; ephemeral = ephemeral; hello = hello; completed = false }, hello)

  -- The transcript of an initiator that has the accept message.
  abbrev pub initiator_transcript : Initiator → Accept → Bytes
  initiator_transcript i accept =
      channel_transcript kc i.endpoint.session_id i.endpoint.context
        (i.endpoint.local_fingerprint, i.endpoint.identity_public)
        (i.endpoint.peer_fingerprint, i.endpoint.peer_public)
        (i.hello.ephemeral_public_key, accept.ephemeral_public_key) (i.hello.nonce, accept.nonce)

  -- `complete` of the initiator, up to its effect.
  unfoldable pub check_accept : Initiator → Accept → Handshaken (Channel × Confirm)
  check_accept i accept = do
    throw_if i.completed handshake_state
    throw_if
        (not (accept.protocol_version == channel_protocol_version)
          || not (accept.cipher_suite == channel_cipher_suite))
        protocol_downgrade
    throw_if (not (accept.session_id == i.endpoint.session_id)) context_mismatch
    throw_if
        (not (is_base64url accept.ephemeral_public_key)
          || not (is_base64url accept.nonce)
          || not (is_base64url accept.signature))
        key_mismatch
    peer ← required key_mismatch (kc.parse_key accept.ephemeral_public_key)
    let transcript = initiator_transcript i accept
    throw_if
        (not (
          kc.verify i.endpoint.peer_public (signature_body kc responder transcript)
            accept.signature))
        key_mismatch
    ok (
      new_channel kc initiator i.endpoint (kc.diffie_hellman i.ephemeral peer) transcript,
      record {
        session_id = i.endpoint.session_id;
        signature = kc.sign i.endpoint.identity_private (signature_body kc initiator transcript);
      },
    )

  -- `complete` of the initiator.
  unfoldable pub complete_initiator :
      Initiator → Accept → Initiator × Handshaken (Channel × Confirm)
  unfolding check_accept
  complete_initiator i accept = elim (check_accept i accept) [
    | ok made ↦ (record i { completed = true }, ok made)
    | err e ↦ (i, err e)
  ]

  -- The transcript of a responder that has the hello message.
  abbrev pub responder_transcript : Endpoint → Hello → Str → Str → Bytes
  responder_transcript e hello public nonce =
      channel_transcript kc e.session_id e.context (e.peer_fingerprint, e.peer_public)
        (e.local_fingerprint, e.identity_public) (hello.ephemeral_public_key, public)
        (hello.nonce, nonce)

  -- The responder and its answer, after the tests.
  abbrev pub answer : Hello → Bytes → Str → Endpoint → Bytes → Responder × Accept
  answer hello ephemeral nonce e peer =
      let transcript = responder_transcript e hello (kc.public_key ephemeral) nonce in
      (
        record {
          endpoint = e;
          ephemeral = ephemeral;
          peer_ephemeral = peer;
          transcript = transcript;
          completed = false;
        },
        record {
          protocol_version = channel_protocol_version;
          cipher_suite = channel_cipher_suite;
          session_id = e.session_id;
          ephemeral_public_key = kc.public_key ephemeral;
          nonce = nonce;
          signature = kc.sign e.identity_private (signature_body kc responder transcript);
        },
      )

  -- `acceptChannel`.
  unfoldable pub accept_channel : Options → Hello → Bytes → Str → Handshaken (Responder × Accept)
  accept_channel options hello ephemeral nonce = do
    e ← normalize_options kc options
    throw_if
        (not (hello.protocol_version == channel_protocol_version)
          || not (hello.cipher_suite == channel_cipher_suite))
        protocol_downgrade
    throw_if (not (hello.session_id == e.session_id)) context_mismatch
    throw_if (not (is_base64url hello.ephemeral_public_key) || not (is_base64url hello.nonce))
        key_mismatch
    peer ← required key_mismatch (kc.parse_key hello.ephemeral_public_key)
    ok (answer hello ephemeral nonce e peer)

  -- `complete` of the responder, up to its effect.
  unfoldable pub check_confirm : Responder → Confirm → Handshaken Channel
  check_confirm r confirm = do
    throw_if r.completed handshake_state
    throw_if (not (confirm.session_id == r.endpoint.session_id)) context_mismatch
    throw_if (not (is_base64url confirm.signature)) key_mismatch
    throw_if
        (not (
          kc.verify r.endpoint.peer_public (signature_body kc initiator r.transcript)
            confirm.signature))
        key_mismatch
    ok (
        new_channel kc responder r.endpoint (kc.diffie_hellman r.ephemeral r.peer_ephemeral)
          r.transcript)

  -- `complete` of the responder.
  unfoldable pub complete_responder : Responder → Confirm → Responder × Handshaken Channel
  unfolding check_confirm
  complete_responder r confirm = elim (check_confirm r confirm) [
    | ok made ↦ (record r { completed = true }, ok made)
    | err e ↦ (r, err e)
  ]
