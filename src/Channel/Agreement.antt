-- ===== src/Channel/Agreement.antt =====
-- The two channels that a handshake of src/companion/channel/index.ts makes.
use agent_tab_bridge.Base.{
  ℕ, ◌≡◌, ◌≤◌, ◌<◌, refl, sym, ap, ap₂, ◌∙◌, Bool, true, false, not, ◌||◌, Option, none, some, ◌==◌,
  list_eq, nat_eq, eq_iff, arith, subst, length, ltb,
}
use agent_tab_bridge.Base.Results.{ok, ◌>>=◌, ◌>>◌, throw_if, >>=-eq-ok, throw_if-eq-ok}
use agent_tab_bridge.Base.Text.{Str}
use agent_tab_bridge.Channel.Defs.{Bytes, Channel, new_direction}
use agent_tab_bridge.Channel.Delivery.{Synced}
use agent_tab_bridge.Channel.Handshake.{
  KeyCrypto, HandshakeFailure, protocol_downgrade, context_mismatch, key_mismatch, handshake_state,
  invalid_options, Handshaken, required, is_base64url, channel_protocol_version,
  channel_cipher_suite, Options, Endpoint, normalize_options, endpoint_of, frame_bytes_of,
  frames_of, epochs_of, Hello, Accept, Confirm, initiator, responder, signature_body,
  derive_directions, new_channel,
}
use agent_tab_bridge.Channel.Parties.{
  Initiator, Responder, initiate_channel, check_accept, accept_channel, check_confirm,
  initiator_transcript, responder_transcript, first_hello, answer,
}

-- What is asked of the keys: both sides of an exchange compute the same secret.
pub record KeyLaws (kc : KeyCrypto) : Type 0 where
  pub same_secret :
      (a b x y : Bytes)
      → kc.parse_key (kc.public_key a) ≡ some x
      → kc.parse_key (kc.public_key b) ≡ some y
      → kc.diffie_hellman a y ≡ kc.diffie_hellman b x

required-inv {ℓ} :
    {A : Type ℓ} (e : HandshakeFailure) (o : Option A) {a : A} → required e o ≡ ok a → o ≡ some a
required-inv e none h = cc
required-inv e (some a) h = cc

ok_inj : {A : Type 0} (a b : A) → ◌≡◌ {A = Handshaken A} (ok a) (ok b) → b ≡ a
ok_inj a b h = cc

at_least : (n : ℕ) → (ltb n 2 || ltb 4294967296 n) ≡ false → 2 ≤ n
at_least n h = ground arith

at_most : (n : ℕ) → (ltb n 2 || ltb 4294967296 n) ≡ false → n ≤ 4294967296
at_most n h = ground arith

below : (n : ℕ) → ltb 4294967295 n ≡ false → n < 4294967296
below n h = ground arith

-- The endpoint that options give.
record Normalized (kc : KeyCrypto) (o : Options) (e : Endpoint) : Type 0 where
  own_key : e.identity_public ≡ o.identity_public
  pinned_key : e.peer_public ≡ o.peer_public
  same_context : e.context ≡ o.context
  own_print : kc.fingerprint o.identity_public ≡ some e.local_fingerprint
  pinned_print : kc.fingerprint o.peer_public ≡ some e.peer_fingerprint
  two_frames : 2 ≤ e.frames_per_epoch
  frames_bound : e.frames_per_epoch ≤ 4294967296
  epochs_bound : e.max_epoch < 4294967296

normalize_options-inv :
    (kc : KeyCrypto) (o : Options) (e : Endpoint)
    → normalize_options kc o ≡ ok e
    → Normalized kc o e
unfolding normalize_options
normalize_options-inv kc o e h =
    let (_, h1) =
      throw_if-eq-ok (length o.session_id == 0 || ltb 256 (length o.session_id)) invalid_options _
        h in
    let (_, h2) =
      throw_if-eq-ok (length o.context == 0 || ltb 65536 (length o.context)) invalid_options _ h1 in
    let (_, h3) =
      throw_if-eq-ok (frame_bytes_of o == 0 || ltb 65536 (frame_bytes_of o)) invalid_options _ h2 in
    let (few, h4) =
      throw_if-eq-ok (ltb (frames_of o) 2 || ltb 4294967296 (frames_of o)) invalid_options _ h3 in
    let (deep, h5) = throw_if-eq-ok (ltb 4294967295 (epochs_of o)) invalid_options _ h4 in
    let (p, hp, h6) =
      >>=-eq-ok (required invalid_options (kc.fingerprint o.peer_public))
        (λ peer.
          required invalid_options (kc.fingerprint o.identity_public)
          >>= (λ local. ok (endpoint_of o peer local)))
        h5 in
    let (l, hl, h7) =
      >>=-eq-ok (required invalid_options (kc.fingerprint o.identity_public))
        (λ local. ok (endpoint_of o p local)) h6 in
    let fp = required-inv invalid_options (kc.fingerprint o.peer_public) hp in
    let fl = required-inv invalid_options (kc.fingerprint o.identity_public) hl in
    let made : e ≡ endpoint_of o p l = ok_inj _ _ h7 in
    record {
      own_key = ap (λ (x : Endpoint). x.identity_public) made;
      pinned_key = ap (λ (x : Endpoint). x.peer_public) made;
      same_context = ap (λ (x : Endpoint). x.context) made;
      own_print = fl ∙ ap (λ (x : Endpoint). some x.local_fingerprint) (sym made);
      pinned_print = fp ∙ ap (λ (x : Endpoint). some x.peer_fingerprint) (sym made);
      two_frames =
          subst (λ (x : Endpoint). 2 ≤ x.frames_per_epoch) (sym made) (at_least (frames_of o) few);
      frames_bound =
          subst (λ (x : Endpoint). x.frames_per_epoch ≤ 4294967296) (sym made)
            (at_most (frames_of o) few);
      epochs_bound =
          subst (λ (x : Endpoint). x.max_epoch < 4294967296) (sym made) (below (epochs_of o) deep);
    }

-- Channels on one secret and one transcript, for the two roles.
new_channel-Synced :
    (kc : KeyCrypto) (e f : Endpoint) (o p : Options) (secret transcript : Bytes)
    → Normalized kc o e
    → Normalized kc p f
    → e.max_frame_bytes ≡ f.max_frame_bytes
    → e.max_epoch ≡ f.max_epoch
    → Synced
        (new_channel kc initiator e secret transcript)
        (new_channel kc responder f secret transcript)
      × Synced
          (new_channel kc responder f secret transcript)
          (new_channel kc initiator e secret transcript)
unfolding new_channel derive_directions new_direction
new_channel-Synced kc e f o p secret transcript v w size epochs = (
  record {
    same = refl;
    same_bound = size;
    same_limit = epochs;
    sending = refl;
    working = refl;
    listening = refl;
    keyed = refl;
    two_frames = v.two_frames;
    frames_bound = v.frames_bound;
    epochs_bound = v.epochs_bound;
    epoch_bound = omega arith;
    counter_bound = omega (arith, v.two_frames);
  },
  record {
    same = refl;
    same_bound = sym size;
    same_limit = sym epochs;
    sending = refl;
    working = refl;
    listening = refl;
    keyed = refl;
    two_frames = w.two_frames;
    frames_bound = w.frames_bound;
    epochs_bound = w.epochs_bound;
    epoch_bound = omega arith;
    counter_bound = omega (arith, w.two_frames);
  },
)

-- What the initiator has found when it completes.
check_accept-inv :
    (kc : KeyCrypto) (i : Initiator) (accept : Accept) (ch : Channel) (confirm : Confirm)
    → check_accept kc i accept ≡ ok (ch, confirm)
    → (peer : Bytes) × (kc.parse_key accept.ephemeral_public_key ≡ some peer)
      × (ch
          ≡ new_channel kc initiator i.endpoint
              (kc.diffie_hellman i.ephemeral peer)
              (initiator_transcript kc i accept))
unfolding check_accept
check_accept-inv kc i accept ch confirm h =
    let (_, h1) = throw_if-eq-ok i.completed handshake_state _ h in
    let (_, h2) =
      throw_if-eq-ok
        (not (accept.protocol_version == channel_protocol_version)
          || not (accept.cipher_suite == channel_cipher_suite))
        protocol_downgrade _ h1 in
    let (_, h3) =
      throw_if-eq-ok (not (accept.session_id == i.endpoint.session_id)) context_mismatch _ h2 in
    let (_, h4) =
      throw_if-eq-ok
        (not (is_base64url accept.ephemeral_public_key)
          || not (is_base64url accept.nonce)
          || not (is_base64url accept.signature))
        key_mismatch _ h3 in
    let made : Bytes → Channel × Confirm = λ peer. (
      new_channel kc initiator i.endpoint (kc.diffie_hellman i.ephemeral peer)
          (initiator_transcript kc i accept),
      record {
        session_id = i.endpoint.session_id;
        signature =
            kc.sign i.endpoint.identity_private
              (signature_body kc initiator (initiator_transcript kc i accept));
      },
    ) in
    let next : Bytes → Handshaken (Channel × Confirm) = λ peer.
      throw_if
        (not (
          kc.verify i.endpoint.peer_public
            (signature_body kc responder (initiator_transcript kc i accept)) accept.signature))
        key_mismatch
      >> ok (made peer) in
    let (peer, hp, h5) =
      >>=-eq-ok (required key_mismatch (kc.parse_key accept.ephemeral_public_key)) next h4 in
    let (_, h6) =
      throw_if-eq-ok
        (not (
          kc.verify i.endpoint.peer_public
            (signature_body kc responder (initiator_transcript kc i accept)) accept.signature))
        key_mismatch (ok (made peer)) h5 in
    let same : (ch, confirm) ≡ made peer = ok_inj (made peer) (ch, confirm) h6 in
    (
      peer,
      required-inv key_mismatch (kc.parse_key accept.ephemeral_public_key) hp,
      ap (λ (x : Channel × Confirm). x.0) same,
    )

-- The channel of a responder that completes.
check_confirm-inv :
    (kc : KeyCrypto) (r : Responder) (confirm : Confirm) (ch : Channel)
    → check_confirm kc r confirm ≡ ok ch
    → ch
      ≡ new_channel kc responder r.endpoint
          (kc.diffie_hellman r.ephemeral r.peer_ephemeral)
          r.transcript
unfolding check_confirm
check_confirm-inv kc r confirm ch h =
    let (_, h1) = throw_if-eq-ok r.completed handshake_state _ h in
    let (_, h2) =
      throw_if-eq-ok (not (confirm.session_id == r.endpoint.session_id)) context_mismatch _ h1 in
    let (_, h3) = throw_if-eq-ok (not (is_base64url confirm.signature)) key_mismatch _ h2 in
    let (_, h4) =
      throw_if-eq-ok
        (not (
          kc.verify r.endpoint.peer_public (signature_body kc initiator r.transcript)
            confirm.signature))
        key_mismatch _ h3 in
    ok_inj
      (new_channel kc responder r.endpoint (kc.diffie_hellman r.ephemeral r.peer_ephemeral)
        r.transcript)
      ch h4

-- What the first message of an initiator says.
record Begun (kc : KeyCrypto) (o : Options) (e : Bytes) (i : Initiator) (hello : Hello)
    : Type 0 where
  normal : Normalized kc o i.endpoint
  own_ephemeral : i.ephemeral ≡ e
  own_hello : i.hello ≡ hello
  session : hello.session_id ≡ i.endpoint.session_id
  public : hello.ephemeral_public_key ≡ kc.public_key e

abbrev begun : KeyCrypto → Bytes → Str → Endpoint → Initiator × Hello
begun kc ephemeral nonce e =
    let hello = first_hello kc e ephemeral nonce in
    (record { endpoint = e; ephemeral = ephemeral; hello = hello; completed = false }, hello)

initiate_channel-inv :
    (kc : KeyCrypto) (o : Options) (ephemeral : Bytes) (nonce : Str) (i : Initiator) (hello : Hello)
    → initiate_channel kc o ephemeral nonce ≡ ok (i, hello)
    → Begun kc o ephemeral i hello
unfolding initiate_channel
initiate_channel-inv kc o ephemeral nonce i hello h =
    let (e, normal, h1) =
      >>=-eq-ok (normalize_options kc o) (λ e. ok (begun kc ephemeral nonce e)) h in
    let same : (i, hello) ≡ begun kc ephemeral nonce e =
      ok_inj (begun kc ephemeral nonce e) (i, hello) h1 in
    let end : Begun kc o ephemeral (begun kc ephemeral nonce e).0 (begun kc ephemeral nonce e).1 =
      record {
        normal = normalize_options-inv kc o e normal;
        own_ephemeral = refl;
        own_hello = refl;
        session = refl;
        public = refl;
      } in
    subst (λ (x : Initiator × Hello). Begun kc o ephemeral x.0 x.1) (sym same) end

-- What the answer of a responder says.
record Answered (kc : KeyCrypto) (o : Options) (hello : Hello) (e : Bytes) (n : Str) (r : Responder)
    (accept : Accept) : Type 0 where
  normal : Normalized kc o r.endpoint
  own_ephemeral : r.ephemeral ≡ e
  parsed : kc.parse_key hello.ephemeral_public_key ≡ some r.peer_ephemeral
  script : r.transcript ≡ responder_transcript kc r.endpoint hello (kc.public_key e) n
  session : hello.session_id ≡ r.endpoint.session_id
  public : accept.ephemeral_public_key ≡ kc.public_key e
  own_nonce : accept.nonce ≡ n

passed : (b : Bool) → not b ≡ false → b ≡ true
passed b h = ground arith

accept_channel-inv :
    (kc : KeyCrypto) (o : Options) (hello : Hello) (ephemeral : Bytes) (nonce : Str) (r : Responder)
    (accept : Accept)
    → accept_channel kc o hello ephemeral nonce ≡ ok (r, accept)
    → Answered kc o hello ephemeral nonce r accept
unfolding accept_channel
accept_channel-inv kc o hello ephemeral nonce r accept h =
    let ends : Endpoint → Bytes → Responder × Accept = answer kc hello ephemeral nonce in
    let keys : Endpoint → Handshaken (Responder × Accept) = λ e.
      required key_mismatch (kc.parse_key hello.ephemeral_public_key)
      >>= (λ peer. ok (ends e peer)) in
    let texts : Endpoint → Handshaken (Responder × Accept) = λ e.
      throw_if (not (is_base64url hello.ephemeral_public_key) || not (is_base64url hello.nonce))
        key_mismatch
      >> keys e in
    let sessions : Endpoint → Handshaken (Responder × Accept) =
      λ e. throw_if (not (hello.session_id == e.session_id)) context_mismatch >> texts e in
    let versions : Endpoint → Handshaken (Responder × Accept) = λ e.
      throw_if
        (not (hello.protocol_version == channel_protocol_version)
          || not (hello.cipher_suite == channel_cipher_suite))
        protocol_downgrade
      >> sessions e in
    let (e, normal, h1) = >>=-eq-ok (normalize_options kc o) versions h in
    let (_, h2) =
      throw_if-eq-ok
        (not (hello.protocol_version == channel_protocol_version)
          || not (hello.cipher_suite == channel_cipher_suite))
        protocol_downgrade (sessions e) h1 in
    let (one, h3) =
      throw_if-eq-ok (not (hello.session_id == e.session_id)) context_mismatch (texts e) h2 in
    let (_, h4) =
      throw_if-eq-ok
        (not (is_base64url hello.ephemeral_public_key) || not (is_base64url hello.nonce))
        key_mismatch (keys e) h3 in
    let (peer, hp, h5) =
      >>=-eq-ok (required key_mismatch (kc.parse_key hello.ephemeral_public_key))
        (λ peer. ok (ends e peer)) h4 in
    let same : (r, accept) ≡ ends e peer = ok_inj (ends e peer) (r, accept) h5 in
    let end : Answered kc o hello ephemeral nonce (ends e peer).0 (ends e peer).1 = record {
      normal = normalize_options-inv kc o e normal;
      own_ephemeral = refl;
      parsed = required-inv key_mismatch (kc.parse_key hello.ephemeral_public_key) hp;
      script = refl;
      session =
          (eq_iff hello.session_id e.session_id).0 (passed (hello.session_id == e.session_id) one);
      public = refl;
      own_nonce = refl;
    } in
    subst (λ (x : Responder × Accept). Answered kc o hello ephemeral nonce x.0 x.1) (sym same) end

some_inj : (a b : Str) → ◌≡◌ {A = Option Str} (some a) (some b) → a ≡ b
some_inj a b h = cc

-- Two ends that pin each other's keys and name the same context.
pub record Paired (oi or : Options) : Type 0 where
  pub pins_responder : oi.peer_public ≡ or.identity_public
  pub pins_initiator : or.peer_public ≡ oi.identity_public
  pub same_context : oi.context ≡ or.context

same_transcript :
    (kc : KeyCrypto) (oi or : Options) (ei er : Bytes) (nr : Str) (i : Initiator) (hello : Hello)
    (r : Responder) (accept : Accept)
    → Paired oi or
    → Begun kc oi ei i hello
    → Answered kc or hello er nr r accept
    → initiator_transcript kc i accept ≡ r.transcript
same_transcript kc oi or ei er nr i hello r accept p b a =
    let sid : i.endpoint.session_id ≡ r.endpoint.session_id = sym b.session ∙ a.session in
    let ctx : i.endpoint.context ≡ r.endpoint.context =
      b.normal.same_context ∙ p.same_context ∙ sym a.normal.same_context in
    let fi : i.endpoint.local_fingerprint ≡ r.endpoint.peer_fingerprint =
      some_inj _ _ (
        sym b.normal.own_print
        ∙ ap kc.fingerprint (sym p.pins_initiator)
        ∙ a.normal.pinned_print) in
    let fr : i.endpoint.peer_fingerprint ≡ r.endpoint.local_fingerprint =
      some_inj _ _
        (sym b.normal.pinned_print ∙ ap kc.fingerprint p.pins_responder ∙ a.normal.own_print) in
    let ki : i.endpoint.identity_public ≡ r.endpoint.peer_public =
      b.normal.own_key ∙ sym p.pins_initiator ∙ sym a.normal.pinned_key in
    let kr : i.endpoint.peer_public ≡ r.endpoint.identity_public =
      b.normal.pinned_key ∙ p.pins_responder ∙ sym a.normal.own_key in
    rw (sid, ctx, fi, fr, ki, kr, b.own_hello, a.public, a.own_nonce) (sym a.script)

-- When an initiator and a responder that pin each other's keys and name the same context both
-- complete a handshake, with the same bounds on frames and epochs, their two channels agree: each
-- end sends into the direction that the other receives from. The key exchange is one in which both
-- sides compute the same secret.
pub handshake-Synced :
    (kc : KeyCrypto) (oi or : Options) (ei er : Bytes) (ni nr : Str) (i : Initiator) (hello : Hello)
    (r : Responder) (accept : Accept) (confirm : Confirm) (ci cr : Channel)
    → KeyLaws kc
    → Paired oi or
    → initiate_channel kc oi ei ni ≡ ok (i, hello)
    → accept_channel kc or hello er nr ≡ ok (r, accept)
    → check_accept kc i accept ≡ ok (ci, confirm)
    → check_confirm kc r confirm ≡ ok cr
    → i.endpoint.max_frame_bytes ≡ r.endpoint.max_frame_bytes
    → i.endpoint.max_epoch ≡ r.endpoint.max_epoch
    → Synced ci cr × Synced cr ci
handshake-Synced kc oi or ei er ni nr i hello r accept confirm ci cr laws p hi hr ha hc size
      epochs =
    let b = initiate_channel-inv kc oi ei ni i hello hi in
    let a = accept_channel-inv kc or hello er nr r accept hr in
    let (y, hy, made_i) = check_accept-inv kc i accept ci confirm ha in
    let made_r = check_confirm-inv kc r confirm cr hc in
    let secret : kc.diffie_hellman i.ephemeral y ≡ kc.diffie_hellman r.ephemeral r.peer_ephemeral =
      ap (λ (x : Bytes). kc.diffie_hellman x y) b.own_ephemeral
      ∙ laws.same_secret ei er r.peer_ephemeral y (ap kc.parse_key (sym b.public) ∙ a.parsed)
          (ap kc.parse_key (sym a.public) ∙ hy)
      ∙ ap (λ (x : Bytes). kc.diffie_hellman x r.peer_ephemeral) (sym a.own_ephemeral) in
    let script = same_transcript kc oi or ei er nr i hello r accept p b a in
    let both =
      new_channel-Synced kc i.endpoint r.endpoint oi or
        (kc.diffie_hellman r.ephemeral r.peer_ephemeral) r.transcript b.normal a.normal size
        epochs in
    let ends_i : ci
        ≡ new_channel kc initiator i.endpoint (kc.diffie_hellman r.ephemeral r.peer_ephemeral)
            r.transcript =
      made_i ∙ ap₂ (new_channel kc initiator i.endpoint) secret script in
    subst (λ (c : Channel). Synced c cr × Synced cr c) (sym ends_i)
      (subst
        (λ (c : Channel).
          Synced
            (new_channel kc initiator i.endpoint (kc.diffie_hellman r.ephemeral r.peer_ephemeral)
              r.transcript)
            c
          × Synced c (
              new_channel kc initiator i.endpoint (kc.diffie_hellman r.ephemeral r.peer_ephemeral)
                r.transcript))
        (sym made_r) both)
