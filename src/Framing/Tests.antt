-- ===== src/Framing/Tests.antt =====
-- The decoders of src/hub/framing.ts and src/companion/native-framing.ts on small streams.
use agent_tab_bridge.Base.{
  ℕ, ◌+◌, ◌≤◌, ◌≡◌, ◌≢◌, refl, true, false, some, none, List, [], ◌∷◌, All, nat_eq, arith,
}
use agent_tab_bridge.Base.Bytes.{read_be, write_be}
use agent_tab_bridge.Framing.Decoder.{
  Decoder, fresh, frames, diverged, feed, feed-terminates, pending_bytes, finish, settle, drain,
  deliver, take_header, take_body, check_length,
}
use agent_tab_bridge.Framing.Stream.{gather}
use agent_tab_bridge.Framing.Hub.{
  hub_frame_decoder, hub_feed, encode_hub_frames, encode_hub_frame, hub_feed-encode_hub_frames,
}
use agent_tab_bridge.Framing.Native.{
  Codec, native_feed, encode_native_frames, native_feed-encode_native_frames, encode_native_frame,
}
use agent_tab_bridge.Framing.Bounds.{fed_all, Holds, IsRead, feed-Holds}

-- Two payloads, framed and cut inside the second header.
abbrev two_payloads : List (List ℕ)
two_payloads = (1 ∷ 2 ∷ 3 ∷ []) ∷ (4 ∷ []) ∷ []

abbrev two_frames : List ℕ
two_frames = 0 ∷ 0 ∷ 0 ∷ 3 ∷ 1 ∷ 2 ∷ 3 ∷ 0 ∷ 0 ∷ 0 ∷ 1 ∷ 4 ∷ []

abbrev two_chunks : List (List ℕ)
two_chunks = (0 ∷ 0 ∷ 0 ∷ 3 ∷ 1 ∷ 2 ∷ 3 ∷ 0 ∷ []) ∷ (0 ∷ 0 ∷ 1 ∷ 4 ∷ []) ∷ []

two_frames-encoded : encode_hub_frames 16 two_payloads ≡ some two_frames
unfolding encode_hub_frames encode_hub_frame write_be
two_frames-encoded = refl

decoder-made : hub_frame_decoder 16 ≡ some fresh
unfolding hub_frame_decoder
decoder-made = refl

hub_feed-encode_hub_frames_example :
    (gather (hub_feed 16) fresh two_chunks ≡ (fresh, frames two_payloads)) × (finish fresh ≡ none)
hub_feed-encode_hub_frames_example =
    hub_feed-encode_hub_frames 16 two_payloads two_chunks two_frames fresh decoder-made
      two_frames-encoded refl

-- Messages that are their own bytes.
abbrev bytes_codec : Codec
bytes_codec = record {
  Message = List ℕ;
  valid = λ _. true;
  to_bytes = λ m. m;
  from_bytes = λ b. some b;
  from_to = λ m h. refl;
}

abbrev little_chunks : List (List ℕ)
little_chunks = (3 ∷ 0 ∷ 0 ∷ 0 ∷ 1 ∷ 2 ∷ 3 ∷ 1 ∷ []) ∷ (0 ∷ 0 ∷ 0 ∷ 4 ∷ []) ∷ []

abbrev little_frames : List ℕ
little_frames = 3 ∷ 0 ∷ 0 ∷ 0 ∷ 1 ∷ 2 ∷ 3 ∷ 1 ∷ 0 ∷ 0 ∷ 0 ∷ 4 ∷ []

little_frames-encoded : encode_native_frames bytes_codec two_payloads ≡ some little_frames
unfolding encode_native_frames encode_native_frame agent_tab_bridge.Base.Bytes.write_le
little_frames-encoded = refl

native_feed-encode_native_frames_example :
    (gather (native_feed bytes_codec) fresh little_chunks ≡ (fresh, frames two_payloads))
    × (finish fresh ≡ none)
native_feed-encode_native_frames_example =
    native_feed-encode_native_frames bytes_codec two_payloads little_chunks little_frames
      little_frames-encoded refl

feed-terminates_example : (feed read_be some 16 fresh two_frames).1 ≢ diverged
feed-terminates_example = feed-terminates read_be some 16 fresh two_frames

-- The first bytes of a frame; then the last of them, and two bytes of the next header.
abbrev first_chunks : List (List ℕ)
first_chunks = (0 ∷ 0 ∷ 0 ∷ []) ∷ (2 ∷ 7 ∷ []) ∷ []

abbrev last_chunk : List ℕ
last_chunk = 8 ∷ 0 ∷ 0 ∷ []

abbrev halfway : Decoder
halfway = record { buffered = 0 ∷ 0 ∷ []; expected_length = none; failed = false }

last_chunk-fed :
    feed read_be some 16 (fed_all read_be some 16 first_chunks fresh) last_chunk
    ≡ (halfway, frames ((7 ∷ 8 ∷ []) ∷ []))
unfolding fed_all feed drain take_header check_length take_body deliver settle read_be
last_chunk-fed = refl

feed-Holds_example :
    Holds read_be some 16 none (0 ∷ 0 ∷ [])
    × All (IsRead read_be some 16) ((7 ∷ 8 ∷ []) ∷ [])
    × (pending_bytes halfway ≤ 16 + 3)
feed-Holds_example =
    feed-Holds read_be some 16 first_chunks last_chunk halfway ((7 ∷ 8 ∷ []) ∷ []) last_chunk-fed
