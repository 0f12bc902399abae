-- ===== src/Channel/Meeting.antt =====
-- A handshake of src/companion/channel/index.ts over toy keys: a public key is its private key, and
-- every signature is valid.
use agent_tab_bridge.Base.{
  ◌+◌, ◌≡◌, refl, false, true, some, none, [], ◌∷◌, length, list_eq, nat_eq, arith,
}
use agent_tab_bridge.Base.Results.{ok}
use agent_tab_bridge.Base.Text.{Str, codes, is_alphanumeric, is_lower, is_upper, is_digit}
use agent_tab_bridge.Channel.Defs.{Bytes, Channel}
use agent_tab_bridge.Channel.Delivery.{Synced}
use agent_tab_bridge.Channel.Handshake.{
  KeyCrypto, Options, Endpoint, endpoint_of, normalize_options, Hello, Accept, Confirm, initiator,
  responder, is_base64url, new_channel,
}
use agent_tab_bridge.Channel.Parties.{
  Initiator, Responder, first_hello, answer, initiate_channel, accept_channel, check_accept,
  check_confirm,
}
use agent_tab_bridge.Channel.Agreement.{KeyLaws, handshake-Synced}

abbrev toy : KeyCrypto
toy = record {
  channel_crypto = record {
    hkdf = λ key label. 7 ∷ key;
    seal = λ key nonce aad p. (p, []);
    unseal = λ key nonce aad c tag. some c;
  };
  sha256 = λ b. b;
  salted_hkdf = λ key salt label. key;
  public_key = λ key. key;
  parse_key = λ text. some text;
  diffie_hellman = λ a b. (length a + length b) ∷ [];
  sign = λ key body. key;
  verify = λ key body signature. true;
  fingerprint = λ key. some key;
  base64url = λ b. b;
  utf8 = λ s. s;
  quoted = λ s. s;
}

toy-laws : KeyLaws toy
toy-laws = record { same_secret = λ a b x y h g. commutes a b x y (some_eq h) (some_eq g) }
  where
    some_eq : {a x : Str} → some a ≡ some x → a ≡ x
    some_eq h = cc

    commutes :
        (a b x y : Bytes)
        → a ≡ x
        → b ≡ y
        → ◌≡◌ {A = Bytes} ((length a + length y) ∷ []) ((length b + length x) ∷ [])
    commutes a b x y h g = ground arith

abbrev first_options : Options
first_options = record {
  identity_public = codes "A";
  identity_private = codes "a";
  peer_public = codes "B";
  session_id = codes "s";
  context = 1 ∷ [];
  max_frame_bytes = some 8;
  frames_per_epoch = none;
  max_epoch = none;
}

abbrev second_options : Options
second_options = record first_options {
  identity_public = codes "B";
  identity_private = codes "b";
  peer_public = codes "A";
}

abbrev first_end : Endpoint
first_end = endpoint_of first_options (codes "B") (codes "A")

abbrev second_end : Endpoint
second_end = endpoint_of second_options (codes "A") (codes "B")

abbrev hello : Hello
hello = first_hello toy first_end (codes "xy") (codes "n1")

abbrev first_party : Initiator
first_party = record {
  endpoint = first_end;
  ephemeral = codes "xy";
  hello = hello;
  completed = false;
}

abbrev answered : Responder × Accept
answered = answer toy hello (codes "z") (codes "n2") second_end (codes "xy")

abbrev first_channel : Channel
first_channel = new_channel toy initiator first_end (3 ∷ []) answered.0.transcript

abbrev second_channel : Channel
second_channel = new_channel toy responder second_end (3 ∷ []) answered.0.transcript

abbrev confirm : Confirm
confirm = record { session_id = codes "s"; signature = codes "a" }

hello-made : initiate_channel toy first_options (codes "xy") (codes "n1") ≡ ok (first_party, hello)
unfolding initiate_channel normalize_options
hello-made = refl

hello-answered :
    accept_channel toy second_options hello (codes "z") (codes "n2") ≡ ok (answered.0, answered.1)
unfolding accept_channel normalize_options is_base64url is_alphanumeric is_lower is_upper is_digit
hello-answered = refl

answer-accepted : check_accept toy first_party answered.1 ≡ ok (first_channel, confirm)
unfolding check_accept is_base64url is_alphanumeric is_lower is_upper is_digit
answer-accepted = refl

confirm-accepted : check_confirm toy answered.0 confirm ≡ ok second_channel
unfolding check_confirm is_base64url is_alphanumeric is_lower is_upper is_digit
confirm-accepted = refl

handshake-Synced_example : Synced first_channel second_channel × Synced second_channel first_channel
handshake-Synced_example =
    handshake-Synced toy first_options second_options (codes "xy") (codes "z") (codes "n1")
      (codes "n2") first_party hello answered.0 answered.1 confirm first_channel second_channel
      toy-laws (record { pins_responder = refl; pins_initiator = refl; same_context = refl })
      hello-made hello-answered answer-accepted confirm-accepted refl refl
