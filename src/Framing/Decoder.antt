-- ===== src/Framing/Decoder.antt =====
-- The incremental decoder of src/hub/framing.ts (`HubFrameDecoder`) and
-- src/companion/native-framing.ts (`NativeMessageDecoder`), over the length format, the test of a
-- frame's body and the limit in which the two differ.
use agent_tab_bridge.Base.{
  ℕ, zero, suc, ◌+◌, ◌≢◌, Bool, true, false, ◌||◌, Option, none, some, List, [], ◌∷◌, ◌++◌, ltb,
  ◌==◌, if◌then◌else◌, length, take, drop, length-drop, nat_eq, arith, Bool-cases, inl, inr, ◌<◌,
  refl, ltb_false→le,
}

pub data FramingError : Type 0 where
  closed_after_error invalid_length invalid_payload truncated : FramingError

pub record Decoder : Type 0 where
  pub buffered : List ℕ
  pub expected_length : Option ℕ
  pub failed : Bool

abbrev pub fresh : Decoder
fresh = record { buffered = []; expected_length = none; failed = false }

-- How the loop ends: by `break`, by `throw`, or, in the model only, without fuel.
pub data Stop : Type 0 where
  stalled : Stop
  threw : FramingError → Stop
  out_of_fuel : Stop

pub record Drained (M : Type 0) : Type 0 where
  pub frames : List M
  pub buffered : List ℕ
  pub expected_length : Option ℕ
  pub stop : Stop

abbrev pub frame_header_bytes : ℕ
frame_header_bytes = 4

-- What a call of `feed` hands back, or throws.
pub data Fed (M : Type 0) : Type 0 where
  frames : List M → Fed M
  error : FramingError → Fed M
  diverged : Fed M

-- `finish`: a stream may not end inside a frame.
unfoldable pub finish : Decoder → Option FramingError
finish d = elim d.expected_length [
  | some n ↦ some truncated
  | none ↦ if length d.buffered == 0 then none else some truncated
]

-- `pendingBytes`.
unfoldable pub pending_bytes : Decoder → ℕ
pending_bytes d =
    length d.buffered + (elim d.expected_length [ none ↦ 0 | some n ↦ frame_header_bytes ])

module _ {M : Type 0} where
  abbrev pub stop_at : List ℕ → Option ℕ → Stop → Drained M
  stop_at buffered expected stop = record {
    frames = [];
    buffered = buffered;
    expected_length = expected;
    stop = stop;
  }

  -- What follows the read of a body: the length is still set if the body is refused.
  unfoldable pub deliver : (List ℕ → Drained M) → List ℕ → ℕ → Option M → Drained M
  deliver next rest n none = stop_at rest (some n) (threw invalid_payload)
  deliver next rest n (some m) = let r = next rest in record r { frames = m ∷ r.frames }

  unfoldable pub settle : List M → List ℕ → Option ℕ → Stop → Decoder × Fed M
  settle out buffered expected stalled =
      (record { buffered = buffered; expected_length = expected; failed = false }, frames out)
  settle out buffered expected (threw e) =
      (record { buffered = buffered; expected_length = expected; failed = true }, error e)
  settle out buffered expected out_of_fuel =
      (record { buffered = buffered; expected_length = expected; failed = false }, diverged)

  abbrev pub settled : Drained M → Decoder × Fed M
  settled r = settle r.frames r.buffered r.expected_length r.stop

module _ {M : Type 0} (read_length : List ℕ → ℕ) (accept : List ℕ → Option M) (limit : ℕ) where
  -- The second half of a round, with the length known.
  unfoldable pub take_body : (List ℕ → Drained M) → List ℕ → ℕ → Drained M
  take_body next buffered n =
      if ltb (length buffered) n
      then stop_at buffered (some n) stalled
      else deliver next (drop n buffered) n (accept (take n buffered))

  -- The test of a length that has just been read.
  unfoldable pub check_length : (List ℕ → Drained M) → List ℕ → ℕ → Drained M
  check_length next rest n =
      if n == 0 || ltb limit n
      then stop_at rest (some n) (threw invalid_length)
      else take_body next rest n

  -- The first half of a round, with the length to be read.
  unfoldable pub take_header : (List ℕ → Drained M) → List ℕ → Drained M
  take_header next buffered =
      if ltb (length buffered) frame_header_bytes
      then stop_at buffered none stalled
      else check_length next (drop frame_header_bytes buffered)
          (read_length (take frame_header_bytes buffered))

  -- The loop `while (true)`, on fuel.
  unfoldable pub drain : ℕ → List ℕ → Option ℕ → Drained M
  drain zero buffered expected = stop_at buffered expected out_of_fuel
  drain (suc fuel) buffered none = take_header (λ rest. drain fuel rest none) buffered
  drain (suc fuel) buffered (some n) = take_body (λ rest. drain fuel rest none) buffered n

  -- `feed`. A round that goes on has consumed a header, or is the first of the call.
  unfoldable pub feed : Decoder → List ℕ → Decoder × Fed M
  feed d chunk =
      if d.failed
      then (d, error closed_after_error)
      else if length chunk == 0
      then (d, frames [])
      else settled
          (drain (length (d.buffered ++ chunk) + 2) (d.buffered ++ chunk) d.expected_length)

  -- The rounds of one call: the fuel is enough from every state.
  abbrev Ends : Drained M → Type 0
  Ends r = r.stop ≢ out_of_fuel

  deliver-Ends :
      (next : List ℕ → Drained M) (rest : List ℕ) (n : ℕ) (m : Option M)
      → Ends (next rest)
      → Ends (deliver next rest n m)
  unfolding deliver
  deliver-Ends next rest n none h e = cc
  deliver-Ends next rest n (some m) h e = h e

  take_body-Ends :
      (next : List ℕ → Drained M) (b : List ℕ) (n : ℕ)
      → Ends (next (drop n b))
      → Ends (take_body next b n)
  unfolding take_body
  take_body-Ends next b n h = elim (Bool-cases (ltb (length b) n)) [
    | inl short ↦ rw short (λ e. cc)
    | inr long ↦ rw long (deliver-Ends next (drop n b) n (accept (take n b)) h)
  ]

  check_length-Ends :
      (next : List ℕ → Drained M) (b : List ℕ) (n : ℕ)
      → Ends (next (drop n b))
      → Ends (check_length next b n)
  unfolding check_length
  check_length-Ends next b n h = elim (Bool-cases (n == 0 || ltb limit n)) [
    | inl bad ↦ rw bad (λ e. cc)
    | inr good ↦ rw good (take_body-Ends next b n h)
  ]

  drain_header-Ends : (fuel : ℕ) (b : List ℕ) → length b < fuel → Ends (drain fuel b none)
  unfolding drain take_header
  drain_header-Ends zero b h = elim h [ ]
  drain_header-Ends (suc fuel) b h = elim (Bool-cases (ltb (length b) 4)) [
    | inl short ↦ rw short (λ e. cc)
    | inr long ↦
        let n = read_length (take 4 b) in
        rw long (
          check_length-Ends (λ rest. drain fuel rest none) (drop 4 b) n
            (drain_header-Ends fuel (drop n (drop 4 b))
              (omega (arith, ltb_false→le _ _ long, length-drop n (drop 4 b), length-drop 4 b))))
  ]

  pub drain-Ends :
      (fuel : ℕ) (b : List ℕ) (expected : Option ℕ)
      → length b + 1 < fuel
      → Ends (drain fuel b expected)
  unfolding drain
  drain-Ends zero b expected h = elim h [ ]
  drain-Ends (suc fuel) b none h = drain_header-Ends (suc fuel) b (omega arith)
  drain-Ends (suc fuel) b (some n) h =
      take_body-Ends (λ rest. drain fuel rest none) b n
        (drain_header-Ends fuel (drop n b) (omega (arith, length-drop n b)))

  settled-ne-diverged : (r : Drained M) → Ends r → (settled r).1 ≢ diverged
  unfolding settle
  settled-ne-diverged r h = go r.frames r.buffered r.expected_length r.stop h
    where
      go :
          (out : List M) (b : List ℕ) (e : Option ℕ) (s : Stop)
          → s ≢ out_of_fuel
          → (settle out b e s).1 ≢ diverged
      go out b e stalled h p = cc
      go out b e (threw x) h p = cc
      go out b e out_of_fuel h p = h refl

  -- A call of `feed` returns or throws, from every state and on every chunk.
  pub feed-terminates : (d : Decoder) (chunk : List ℕ) → (feed d chunk).1 ≢ diverged
  unfolding feed
  feed-terminates d chunk = elim (Bool-cases d.failed) [
    | inl closed ↦ rw closed (λ p. cc)
    | inr open' ↦ rw open' (elim (Bool-cases (length chunk == 0)) [
      | inl empty ↦ rw empty (λ p. cc)
      | inr some' ↦ rw some' (
          settled-ne-diverged _ (
            drain-Ends (length (d.buffered ++ chunk) + 2) (d.buffered ++ chunk) d.expected_length
              (omega arith)))
    ])
  ]
