-- ===== src/Framing/Hub.antt =====
-- src/hub/framing.ts: opaque payloads behind a big-endian length.
use mathlib.Core.List.{append_assoc}
use agent_tab_bridge.Base.{
  ℕ, ◌≤◌, ◌≡◌, refl, ◌∙◌, ◌||◌, Option, none, some, List, [], ◌∷◌, ◌++◌, ltb, ◌==◌, if◌then◌else◌,
  length, nat_eq, arith, All,
}
use agent_tab_bridge.Base.Bytes.{read_be, write_be, length-write_be, read_be-write_be}
use agent_tab_bridge.Framing.Decoder.{Decoder, fresh, Fed, frames, feed, finish}
use agent_tab_bridge.Framing.Stream.{gather, concat, stream, Sendable, gather-stream}

abbrev pub hub_max_frame_bytes : ℕ
hub_max_frame_bytes = 1048576

abbrev pub u32_max : ℕ
u32_max = 0xffffffff

-- `encodeHubFrame`; `none` is its exception.
unfoldable pub encode_hub_frame : ℕ → List ℕ → Option (List ℕ)
encode_hub_frame max_frame_bytes payload =
    if length payload == 0 || ltb max_frame_bytes (length payload) || ltb u32_max (length payload)
    then none
    else some (write_be 4 (length payload) ++ payload)

-- The constructor of `HubFrameDecoder`; `none` is its exception.
unfoldable pub hub_frame_decoder : ℕ → Option Decoder
hub_frame_decoder max_frame_bytes =
    if ltb max_frame_bytes 1 || ltb u32_max max_frame_bytes then none else some fresh

-- `HubFrameDecoder.feed`.
unfoldable pub hub_feed : ℕ → Decoder → List ℕ → Decoder × Fed (List ℕ)
hub_feed max_frame_bytes = feed read_be some max_frame_bytes

abbrev both : Option (List ℕ) → Option (List ℕ) → Option (List ℕ)
both (some frame) (some rest) = some (frame ++ rest)
both (some frame) none = none
both none rest = none

-- The frames of several payloads, one behind the other.
unfoldable pub encode_hub_frames : ℕ → List (List ℕ) → Option (List ℕ)
encode_hub_frames max_frame_bytes [] = some []
encode_hub_frames max_frame_bytes (p ∷ ps) =
    both (encode_hub_frame max_frame_bytes p) (encode_hub_frames max_frame_bytes ps)

abbrev Written : ℕ → List ℕ → Type 0
Written max p = Sendable read_be some max (write_be 4) (λ b. b) p

abbrev hub_stream : ℕ → List (List ℕ) → List ℕ
hub_stream max ps = stream read_be some max (write_be 4) (λ b. b) ps

both-inv :
    (a b : Option (List ℕ)) (bytes : List ℕ)
    → both a b ≡ some bytes
    → (x : List ℕ) × (y : List ℕ) × (a ≡ some x) × (b ≡ some y) × (bytes ≡ x ++ y)
both-inv (some x) (some y) bytes e = (x, y, refl, refl, cc)
both-inv (some x) none bytes e = cc
both-inv none b bytes e = cc

encode_hub_frame-inv :
    (max : ℕ) (p frame : List ℕ)
    → encode_hub_frame max p ≡ some frame
    → Written max p × (frame ≡ write_be 4 (length p) ++ p)
unfolding encode_hub_frame
encode_hub_frame-inv max p frame e =
    (record { accepted = refl; nonempty = ground arith; within = ground arith }, ground arith)

encode_hub_frames-inv :
    (max : ℕ) (ps : List (List ℕ)) (bytes : List ℕ)
    → encode_hub_frames max ps ≡ some bytes
    → All (Written max) ps × (bytes ≡ hub_stream max ps)
unfolding encode_hub_frames
encode_hub_frames-inv max [] bytes e = (tt, cc)
encode_hub_frames-inv max (p ∷ ps) bytes e =
    let (x, y, ex, ey, eb) = both-inv _ _ bytes e in
    let (ok, fx) = encode_hub_frame-inv max p x ex in
    let (oks, fy) = encode_hub_frames-inv max ps y ey in
    ((ok, oks), rw (eb, fx, fy) (append_assoc (write_be 4 (length p)) p (hub_stream max ps)))

-- Payloads that the encoder takes, framed one behind the other and cut into chunks anywhere, come
-- out of a new decoder with the same limit as they were, in order, and the stream ends cleanly.
-- The limit is one that the constructor of the decoder takes.
pub hub_feed-encode_hub_frames :
    (max : ℕ) (ps chunks : List (List ℕ)) (bytes : List ℕ) (d : Decoder)
    → hub_frame_decoder max ≡ some d
    → encode_hub_frames max ps ≡ some bytes
    → concat chunks ≡ bytes
    → (gather (hub_feed max) d chunks ≡ (d, frames ps)) × (finish d ≡ none)
unfolding hub_feed hub_frame_decoder finish
hub_feed-encode_hub_frames max ps chunks bytes d made e c =
    let (oks, s) = encode_hub_frames-inv max ps bytes e in
    let small : max ≤ u32_max = ground arith in
    let new : d ≡ fresh = ground arith in
    let delivered =
      gather-stream read_be some max (write_be 4) (λ b. b) (length-write_be 4)
        (λ n h. read_be-write_be 4 n (omega (arith, h, small))) chunks ps oks (c ∙ s) in
    rw new (delivered, refl)
