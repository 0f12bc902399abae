-- ===== src/Channel/Defs.antt =====
-- `Direction` and `SecureSessionChannel` of src/companion/channel/index.ts. The cryptographic
-- functions of the platform are a parameter; buffers that the source zero-fills are zero-filled.
use agent_tab_bridge.Base.{
  ℕ, zero, suc, ◌+◌, ◌-◌, ◌≡◌, Bool, true, false, not, ◌&&◌, ◌||◌, Option, none, some, List, [],
  ◌∷◌, ◌++◌, map, ltb, leb, ◌==◌, if◌then◌else◌, length, take, drop, nat_eq,
}
use agent_tab_bridge.Base.Bytes.{write_be, read_be}
use agent_tab_bridge.Base.Results.{Result, ok, err}
use agent_tab_bridge.Base.Text.{Str, codes}

abbrev pub Bytes : Type 0
Bytes = List ℕ

-- HKDF-SHA256 with an empty salt to 32 bytes, by key and label, and AES-256-GCM: `seal` gives the
-- ciphertext and the tag.
pub record Crypto : Type 0 where
  pub hkdf : Bytes → Str → Bytes
  pub seal : Bytes → Bytes → Bytes → Bytes → Bytes × Bytes
  pub unseal : Bytes → Bytes → Bytes → Bytes → Bytes → Option Bytes

-- What the channel relies on: a ciphertext is as long as its plaintext, a tag has 16 bytes, and
-- what was sealed is unsealed under the same key, nonce and associated data.
pub record CryptoLaws (crypto : Crypto) : Type 0 where
  pub length_ciphertext :
      (key nonce aad p : Bytes) → length (crypto.seal key nonce aad p).0 ≡ length p
  pub length_tag : (key nonce aad p : Bytes) → length (crypto.seal key nonce aad p).1 ≡ 16
  pub unseal_seal :
      (key nonce aad p : Bytes)
      → crypto.unseal key nonce aad (crypto.seal key nonce aad p).0 (crypto.seal key nonce aad p).1
        ≡ some p

pub data ChannelFailure : Type 0 where
  tampered_frame replayed_frame reordered_frame frame_too_large : ChannelFailure
  channel_closed counter_exhausted invalid_reason : ChannelFailure

pub data ChannelState : Type 0 where
  open' local_closed peer_closed closed failed : ChannelState

pub data Receipt : Type 0 where
  data' : Bytes → Receipt
  rekeyed : Receipt
  closed : Option Bytes → Receipt

abbrev pub frame_header_bytes : ℕ
frame_header_bytes = 14

abbrev pub tag_bytes : ℕ
tag_bytes = 16

abbrev pub frame_version : ℕ
frame_version = 1

abbrev pub frame_data : ℕ
frame_data = 1

abbrev pub frame_close : ℕ
frame_close = 2

abbrev pub frame_rekey : ℕ
frame_rekey = 3

abbrev pub max_close_reason_chars : ℕ
max_close_reason_chars = 1024

pub record Direction : Type 0 where
  pub epoch : ℕ
  pub counter : ℕ
  pub destroyed : Bool
  pub chain : Bytes
  pub key : Bytes

abbrev pub zero_fill : Bytes → Bytes
zero_fill b = map (λ _. 0) b

-- The channel; the epoch limit of its two directions is the channel's.
pub record Channel : Type 0 where
  pub send_direction : Direction
  pub recv_direction : Direction
  pub max_frame_bytes : ℕ
  pub frames_per_epoch : ℕ
  pub max_epoch : ℕ
  pub local_closed : Bool
  pub peer_closed : Bool
  pub failed : Bool

-- A method returns the channel that it leaves, and its result or exception.
abbrev pub Answer : Type 0 → Type 0
Answer A = Channel × Result {0, 0} ChannelFailure A

-- `frameHeader`.
unfoldable pub frame_header : ℕ → ℕ → ℕ → Bytes
frame_header type epoch counter = frame_version ∷ type ∷ (write_be 4 epoch ++ write_be 8 counter)

-- `frameNonce`.
unfoldable pub frame_nonce : ℕ → ℕ → Bytes
frame_nonce epoch counter = write_be 4 epoch ++ write_be 8 counter

-- `Direction.destroy`.
unfoldable pub destroy : Direction → Direction
destroy d = record d { destroyed = true; chain = zero_fill d.chain; key = zero_fill d.key }

-- `SecureSessionChannel.fail`.
unfoldable pub fail : Channel → Channel
fail ch = record ch {
  failed = true;
  send_direction = destroy ch.send_direction;
  recv_direction = destroy ch.recv_direction;
}

-- `state`.
unfoldable pub state : Channel → ChannelState
state ch =
    if ch.failed
    then ChannelState.failed
    else if ch.local_closed && ch.peer_closed
    then ChannelState.closed
    else if ch.local_closed
    then ChannelState.local_closed
    else if ch.peer_closed
    then ChannelState.peer_closed
    else open'

-- `abort`.
unfoldable pub abort : Channel → Channel
abort ch = if ch.failed || (ch.local_closed && ch.peer_closed) then ch else fail ch

abbrev pub advance : Direction → Direction
advance d = record d { counter = d.counter + 1 }

abbrev pub with_send : Channel → Direction → Channel
with_send ch d = record ch { send_direction = d }

abbrev pub with_recv : Channel → Direction → Channel
with_recv ch d = record ch { recv_direction = d }

-- `assertSendOpen`.
abbrev pub send_closed : Channel → Bool
send_closed ch = ch.failed || ch.local_closed

abbrev pub then_frame : Bytes → Answer Bytes → Answer (List Bytes)
then_frame first (ch, ok frame) = (ch, ok (first ∷ frame ∷ []))
then_frame first (ch, err e) = (ch, err e)

abbrev pub one_frame : Answer Bytes → Answer (List Bytes)
one_frame (ch, ok frame) = (ch, ok (frame ∷ []))
one_frame (ch, err e) = (ch, err e)

abbrev pub close_local : Answer (List Bytes) → Answer (List Bytes)
close_local (ch, ok frames) =
    (record ch { local_closed = true; send_direction = destroy ch.send_direction }, ok frames)
close_local (ch, err e) = (ch, err e)

abbrev pub byte_at : ℕ → Bytes → ℕ
byte_at n [] = 0
byte_at zero (b ∷ bs) = b
byte_at (suc n) (b ∷ bs) = byte_at n bs

-- What a frame says of itself, and what it carries.
abbrev pub type_of : Bytes → ℕ
type_of frame = byte_at 1 frame

abbrev pub epoch_of : Bytes → ℕ
epoch_of frame = read_be (take 4 (drop 2 frame))

abbrev pub counter_of : Bytes → ℕ
counter_of frame = read_be (take 8 (drop 6 frame))

abbrev pub ciphertext_of : Bytes → Bytes
ciphertext_of frame = take (length frame - 16 - 14) (drop 14 frame)

abbrev pub tag_of : Bytes → Bytes
tag_of frame = drop (length frame - 16) frame

abbrev pub known_type : ℕ → Bool
known_type t = t == frame_data || t == frame_close || t == frame_rekey

abbrev pub close_reason : Bytes → Option Bytes
close_reason [] = none
close_reason (b ∷ bs) = some (b ∷ bs)

-- The position of a frame against the one that is expected.
abbrev pub regressed : Bytes → Direction → Bool
regressed frame d =
    ltb (epoch_of frame) d.epoch || (epoch_of frame == d.epoch && ltb (counter_of frame) d.counter)

abbrev pub skipped : Bytes → Direction → Bool
skipped frame d = ltb d.epoch (epoch_of frame) || ltb d.counter (counter_of frame)

module _ (crypto : Crypto) where
  abbrev pub aead_key_of : Bytes → Bytes
  aead_key_of chain = crypto.hkdf chain (codes "atb-channel-v1 aead-key")

  -- The constructor of `Direction`.
  unfoldable pub new_direction : Bytes → Direction
  new_direction chain = record {
    epoch = 0;
    counter = 0;
    destroyed = false;
    chain = chain;
    key = aead_key_of chain;
  }

  -- `Direction.ratchet` of a direction below the limit.
  unfoldable pub next_epoch : Direction → Direction
  next_epoch d =
      let next = crypto.hkdf d.chain (codes "atb-channel-v1 rekey") in
      record {
        epoch = d.epoch + 1;
        counter = 0;
        destroyed = d.destroyed;
        chain = next;
        key = aead_key_of next;
      }

  -- The frame that `seal` makes, and the direction after it. A destroyed direction has no key.
  unfoldable pub sealed_frame : ℕ → Bytes → Direction → Bytes
  sealed_frame type payload d =
      let header = frame_header type d.epoch d.counter in
      let (ciphertext, tag) = crypto.seal d.key (frame_nonce d.epoch d.counter) header payload in
      header ++ (ciphertext ++ tag)

  -- `seal`.
  unfoldable pub seal_frame : ℕ → Bytes → Channel → Answer Bytes
  seal_frame type payload ch = if ch.send_direction.destroyed then (ch, err channel_closed) else (
    with_send ch (advance ch.send_direction),
    ok (sealed_frame type payload ch.send_direction),
  )

  -- `sealRekey`. The frame is sealed under the old epoch.
  unfoldable pub seal_rekey : Channel → Answer Bytes
  seal_rekey ch =
      if leb ch.max_epoch ch.send_direction.epoch
      then (fail ch, err counter_exhausted)
      else if ch.send_direction.destroyed
      then (ch, err channel_closed)
      else (
        with_send ch (next_epoch ch.send_direction),
        ok (sealed_frame frame_rekey [] ch.send_direction),
      )

  abbrev pub after_rekey : ℕ → Bytes → Answer Bytes → Answer (List Bytes)
  after_rekey type payload (ch, ok frame) = then_frame frame (seal_frame type payload ch)
  after_rekey type payload (ch, err e) = (ch, err e)

  -- A frame, behind a rekey if it would be the last of its epoch.
  unfoldable pub seal_in_epoch : ℕ → Bytes → Channel → Answer (List Bytes)
  seal_in_epoch type payload ch =
      if leb (ch.frames_per_epoch - 1) ch.send_direction.counter
      then after_rekey type payload (seal_rekey ch)
      else one_frame (seal_frame type payload ch)

  -- `send`.
  unfoldable pub send : Bytes → Channel → Answer (List Bytes)
  send payload ch =
      if send_closed ch
      then (ch, err channel_closed)
      else if ltb ch.max_frame_bytes (length payload)
      then (ch, err frame_too_large)
      else seal_in_epoch frame_data payload ch

  -- `rekey`.
  unfoldable pub rekey : Channel → Answer Bytes
  rekey ch = if send_closed ch then (ch, err channel_closed) else seal_rekey ch

  -- `close`, with a reason of some characters and its bytes.
  unfoldable pub close : ℕ → Bytes → Channel → Answer (List Bytes)
  close chars payload ch =
      if send_closed ch
      then (ch, err channel_closed)
      else if ltb max_close_reason_chars chars
      then (ch, err invalid_reason)
      else if ltb ch.max_frame_bytes (length payload)
      then (ch, err frame_too_large)
      else close_local (seal_in_epoch frame_close payload ch)

  -- What an authentic frame does.
  unfoldable pub accept_frame : ℕ → Bytes → Channel → Answer Receipt
  accept_frame type payload ch =
      if type == frame_rekey
      then if leb ch.max_epoch ch.recv_direction.epoch
        then (fail ch, err counter_exhausted)
        else (with_recv ch (next_epoch ch.recv_direction), ok rekeyed)
      else if type == frame_close
      then (
        record ch { peer_closed = true; recv_direction = destroy ch.recv_direction },
        ok (Receipt.closed (close_reason payload)),
      )
      else (with_recv ch (advance ch.recv_direction), ok (data' payload))

  abbrev pub decrypted : Bytes → Channel → Option Bytes
  decrypted frame ch =
      if ch.recv_direction.destroyed
      then none
      else crypto.unseal ch.recv_direction.key
          (frame_nonce (epoch_of frame) ch.recv_direction.counter) (take frame_header_bytes frame)
          (ciphertext_of frame) (tag_of frame)

  abbrev pub open_frame : ℕ → Option Bytes → Channel → Answer Receipt
  open_frame type none ch = (ch, err tampered_frame)
  open_frame type (some payload) ch = accept_frame type payload ch

  -- `receive`.
  unfoldable pub receive : Bytes → Channel → Answer Receipt
  receive frame ch =
      if ch.failed
      then (ch, err channel_closed)
      else if ch.peer_closed
      then (ch, err channel_closed)
      else if ltb (length frame) (frame_header_bytes + tag_bytes)
      then (ch, err tampered_frame)
      else if ltb (frame_header_bytes + ch.max_frame_bytes + tag_bytes) (length frame)
      then (ch, err frame_too_large)
      else if not (byte_at 0 frame == frame_version) || not (known_type (type_of frame))
      then (ch, err tampered_frame)
      else if regressed frame ch.recv_direction
      then (ch, err replayed_frame)
      else if skipped frame ch.recv_direction
      then (ch, err reordered_frame)
      else open_frame (type_of frame) (decrypted frame ch) ch
