-- ===== src/Framing/Native.antt =====
-- src/companion/native-framing.ts: JSON messages behind a little-endian length.
use mathlib.Core.List.{append_assoc}
use agent_tab_bridge.Base.{
  ℕ, ◌≡◌, refl, ◌∙◌, ◌||◌, Bool, true, Option, none, some, List, [], ◌∷◌, ◌++◌, ltb, ◌==◌,
  if◌then◌else◌, length, nat_eq, arith, All,
}
use agent_tab_bridge.Base.Bytes.{read_le, write_le, length-write_le, read_le-write_le}
use agent_tab_bridge.Framing.Decoder.{Decoder, fresh, Fed, frames, feed, finish}
use agent_tab_bridge.Framing.Stream.{gather, concat, stream, Sendable, gather-stream}

abbrev pub native_max_frame_bytes : ℕ
native_max_frame_bytes = 1048576

-- `JSON.stringify` and `JSON.parse` with the UTF-8 conversions, and the validation of a message,
-- `assertNativeMessage`. What is asked of them: a valid message is read back as it was written.
pub record Codec : Type 1 where
  pub Message : Type 0
  pub valid : Message → Bool
  pub to_bytes : Message → List ℕ
  pub from_bytes : List ℕ → Option Message
  pub from_to : (m : Message) → valid m ≡ true → from_bytes (to_bytes m) ≡ some m

module _ (codec : Codec) where
  open codec use {Message, valid, to_bytes, from_bytes, from_to}

  abbrev keep_valid : Option Message → Option Message
  keep_valid none = none
  keep_valid (some m) = if valid m then some m else none

  -- `assertNativeMessage(JSON.parse(body))`; `none` is its exception.
  abbrev pub accept_message : List ℕ → Option Message
  accept_message body = keep_valid (from_bytes body)

  -- `encodeNativeFrame`; `none` is its exception.
  unfoldable pub encode_native_frame : Message → Option (List ℕ)
  encode_native_frame m =
      if valid m
      then if length (to_bytes m) == 0 || ltb native_max_frame_bytes (length (to_bytes m))
        then none
        else some (write_le 4 (length (to_bytes m)) ++ to_bytes m)
      else none

  -- `NativeMessageDecoder.feed`.
  unfoldable pub native_feed : Decoder → List ℕ → Decoder × Fed Message
  native_feed = feed read_le accept_message native_max_frame_bytes

  abbrev both : Option (List ℕ) → Option (List ℕ) → Option (List ℕ)
  both (some frame) (some rest) = some (frame ++ rest)
  both (some frame) none = none
  both none rest = none

  -- The frames of several messages, one behind the other.
  unfoldable pub encode_native_frames : List Message → Option (List ℕ)
  encode_native_frames [] = some []
  encode_native_frames (m ∷ ms) = both (encode_native_frame m) (encode_native_frames ms)

  abbrev Written : Message → Type 0
  Written m = Sendable read_le accept_message native_max_frame_bytes (write_le 4) to_bytes m

  abbrev native_stream : List Message → List ℕ
  native_stream ms = stream read_le accept_message native_max_frame_bytes (write_le 4) to_bytes ms

  both-inv :
      (a b : Option (List ℕ)) (bytes : List ℕ)
      → both a b ≡ some bytes
      → (x : List ℕ) × (y : List ℕ) × (a ≡ some x) × (b ≡ some y) × (bytes ≡ x ++ y)
  both-inv (some x) (some y) bytes e = (x, y, refl, refl, cc)
  both-inv (some x) none bytes e = cc
  both-inv none b bytes e = cc

  encode_native_frame-inv :
      (m : Message) (frame : List ℕ)
      → encode_native_frame m ≡ some frame
      → Written m × (frame ≡ write_le 4 (length (to_bytes m)) ++ to_bytes m)
  unfolding encode_native_frame
  encode_native_frame-inv m frame e =
      let ok : valid m ≡ true = ground arith in
      (
        record { accepted = rw (from_to m ok, ok); nonempty = ground arith; within = ground arith },
        ground arith,
      )

  encode_native_frames-inv :
      (ms : List Message) (bytes : List ℕ)
      → encode_native_frames ms ≡ some bytes
      → All Written ms × (bytes ≡ native_stream ms)
  unfolding encode_native_frames
  encode_native_frames-inv [] bytes e = (tt, cc)
  encode_native_frames-inv (m ∷ ms) bytes e =
      let (x, y, ex, ey, eb) = both-inv _ _ bytes e in
      let (ok, fx) = encode_native_frame-inv m x ex in
      let (oks, fy) = encode_native_frames-inv ms y ey in
      (
        (ok, oks),
        rw (eb, fx, fy)
            (append_assoc (write_le 4 (length (to_bytes m))) (to_bytes m) (native_stream ms)),
      )

  -- Messages that the encoder takes, framed one behind the other and cut into chunks anywhere, come
  -- out of a new decoder as they were, in order, and the stream ends cleanly.
  pub native_feed-encode_native_frames :
      (ms : List Message) (chunks : List (List ℕ)) (bytes : List ℕ)
      → encode_native_frames ms ≡ some bytes
      → concat chunks ≡ bytes
      → (gather native_feed fresh chunks ≡ (fresh, frames ms)) × (finish fresh ≡ none)
  unfolding native_feed finish
  native_feed-encode_native_frames ms chunks bytes e c =
      let (oks, s) = encode_native_frames-inv ms bytes e in
      (
        gather-stream read_le accept_message native_max_frame_bytes (write_le 4) to_bytes
            (length-write_le 4) (λ n h. read_le-write_le 4 n (omega (arith, h))) chunks ms oks
            (c ∙ s),
        refl,
      )
