-- ===== src/Channel/Tests.antt =====
-- A channel of src/companion/channel/index.ts over a cipher that leaves its plaintext.
use agent_tab_bridge.Base.{◌≡◌, refl, false, some, List, [], ◌∷◌, arith}
use agent_tab_bridge.Base.Bytes.{read_be}
use agent_tab_bridge.Base.Results.{ok, err}
use agent_tab_bridge.Channel.Defs.{
  Bytes, Crypto, CryptoLaws, ChannelFailure, data', Channel, receive, accept_frame,
}
use agent_tab_bridge.Channel.Replay.{
  Call, send_call, rekey_call, receive_call, calls, accepted_frame_is_refused,
}
use agent_tab_bridge.Channel.Delivery.{Synced, deliver, send_all, sent_payloads_arrive}

abbrev zeros : Bytes
zeros = 0 ∷ 0 ∷ 0 ∷ 0 ∷ 0 ∷ 0 ∷ 0 ∷ 0 ∷ 0 ∷ 0 ∷ 0 ∷ 0 ∷ 0 ∷ 0 ∷ 0 ∷ 0 ∷ []

abbrev plain : Crypto
plain = record {
  hkdf = λ key label. 7 ∷ key;
  seal = λ key nonce aad p. (p, zeros);
  unseal = λ key nonce aad c tag. some c;
}

plain-laws : CryptoLaws plain
plain-laws = record {
  length_ciphertext = λ key nonce aad p. refl;
  length_tag = λ key nonce aad p. refl;
  unseal_seal = λ key nonce aad p. refl;
}

-- Two ends that exchange two frames in each epoch.
abbrev sender : Channel
sender = record {
  send_direction = record {
    epoch = 0;
    counter = 0;
    destroyed = false;
    chain = 1 ∷ [];
    key = 7 ∷ 1 ∷ [];
  };
  recv_direction = record {
    epoch = 0;
    counter = 0;
    destroyed = false;
    chain = 2 ∷ [];
    key = 7 ∷ 2 ∷ [];
  };
  max_frame_bytes = 8;
  frames_per_epoch = 2;
  max_epoch = 5;
  local_closed = false;
  peer_closed = false;
  failed = false;
}

abbrev receiver : Channel
receiver = record sender {
  send_direction = sender.recv_direction;
  recv_direction = sender.send_direction;
}

ends-Synced : Synced sender receiver
ends-Synced = record {
  same = refl;
  same_bound = refl;
  same_limit = refl;
  sending = refl;
  working = refl;
  listening = refl;
  keyed = refl;
  two_frames = omega arith;
  frames_bound = omega arith;
  epochs_bound = omega arith;
  epoch_bound = omega arith;
  counter_bound = omega arith;
}

abbrev three_payloads : List Bytes
three_payloads = (1 ∷ 2 ∷ []) ∷ [] ∷ (3 ∷ []) ∷ []

sent_payloads_arrive_example :
    (s : Channel) × (r : Channel) × (frames : List Bytes) × (send_all plain three_payloads sender
      ≡ (s, ok frames))
    × (deliver plain frames receiver ≡ ok (r, three_payloads))
    × Synced s r
sent_payloads_arrive_example =
    sent_payloads_arrive plain plain-laws three_payloads sender receiver ends-Synced
      (omega arith, (omega arith, (omega arith, tt))) (omega arith)

-- The first frame that the sender makes.
abbrev first_frame : Bytes
first_frame = 1 ∷ 1 ∷ 0 ∷ 0 ∷ 0 ∷ 0 ∷ 0 ∷ 0 ∷ 0 ∷ 0 ∷ 0 ∷ 0 ∷ 0 ∷ 0 ∷ 1 ∷ 2 ∷ zeros

first_frame-accepted : (receive plain first_frame receiver).1 ≡ ok (data' (1 ∷ 2 ∷ []))
unfolding receive accept_frame read_be
first_frame-accepted = refl

abbrev some_calls : List Call
some_calls = send_call (5 ∷ []) ∷ rekey_call ∷ receive_call first_frame ∷ []

accepted_frame_is_refused_example :
    (e : ChannelFailure) × (receive plain first_frame
        (calls plain some_calls (receive plain first_frame receiver).0)
      ≡ (calls plain some_calls (receive plain first_frame receiver).0, err e))
accepted_frame_is_refused_example =
    accepted_frame_is_refused plain first_frame receiver (data' (1 ∷ 2 ∷ [])) some_calls
      first_frame-accepted
