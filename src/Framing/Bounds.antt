-- ===== src/Framing/Bounds.antt =====
-- What a decoder of src/hub/framing.ts or src/companion/native-framing.ts holds between two chunks.
use agent_tab_bridge.Base.{
  ℕ, zero, suc, ◌+◌, ◌≤◌, ◌<◌, ◌≡◌, refl, Bool, true, false, ◌||◌, Option, none, some, List, [],
  ◌++◌, ltb, ◌==◌, length, take, drop, length-take_le, nat_eq, arith, Bool-cases, inl, inr,
  ltb_false→le, ltb→lt, All, ◌⊎◌, ◌≢◌, ◌∷◌, true_false, subst, if◌then◌else◌,
}
use agent_tab_bridge.Framing.Decoder.{
  Decoder, Stop, stalled, threw, out_of_fuel, closed_after_error, Drained, Fed, frames, error,
  diverged, deliver, settle, settled, take_body, check_length, take_header, drain, feed,
  pending_bytes, fresh, drain-Ends,
}

module _ {M : Type 0} (read_length : List ℕ → ℕ) (accept : List ℕ → Option M) (limit : ℕ) where
  -- Nothing that could be delivered is held back, and a length that is known is within the limit.
  abbrev pub Holds : Option ℕ → List ℕ → Type 0
  Holds none b = length b < 4
  Holds (some n) b = (length b < n) × (0 < n) × (n ≤ limit)

  -- A message that was read from a body of an admissible length.
  pub record IsRead (m : M) : Type 0 where
    pub body : List ℕ
    pub read : accept body ≡ some m
    pub nonempty : 0 < length body
    pub within : length body ≤ limit

  abbrev Kept : Drained M → Type 0
  Kept r = r.stop ≡ stalled → Holds r.expected_length r.buffered × All IsRead r.frames

  deliver-Kept :
      (next : List ℕ → Drained M) (rest body : List ℕ) (n : ℕ) (o : Option M)
      → accept body ≡ o
      → 0 < length body
      → length body ≤ limit
      → Kept (next rest)
      → Kept (deliver next rest n o)
  unfolding deliver
  deliver-Kept next rest body n none e p q k h = cc
  deliver-Kept next rest body n (some m) e p q k h =
      let (held, all) = k h in
      (held, (record { body = body; read = e; nonempty = p; within = q }, all))

  take_body-Kept :
      (next : List ℕ → Drained M) (b : List ℕ) (n : ℕ)
      → 0 < n
      → n ≤ limit
      → Kept (next (drop n b))
      → Kept (take_body read_length accept limit next b n)
  unfolding take_body
  take_body-Kept next b n p q k = elim (Bool-cases (ltb (length b) n)) [
    | inl short ↦ rw short (λ h. ((ltb→lt _ _ short, p, q), tt))
    | inr long ↦
        let l : length (take n b) ≡ n = length-take_le n b (ltb_false→le _ _ long) in
        rw long (
          deliver-Kept next (drop n b) (take n b) n (accept (take n b)) refl (omega (arith, l))
            (omega (arith, l)) k)
  ]

  check_length-Kept :
      (next : List ℕ → Drained M) (b : List ℕ) (n : ℕ)
      → Kept (next (drop n b))
      → Kept (check_length read_length accept limit next b n)
  unfolding check_length
  check_length-Kept next b n k = elim (Bool-cases (n == 0 || ltb limit n)) [
    | inl bad ↦ rw bad (λ h. cc)
    | inr good ↦ rw good (take_body-Kept next b n (ground arith) (ground arith) k)
  ]

  drain_header-Kept : (fuel : ℕ) (b : List ℕ) → Kept (drain read_length accept limit fuel b none)
  unfolding drain take_header
  drain_header-Kept zero b = λ h. cc
  drain_header-Kept (suc fuel) b = elim (Bool-cases (ltb (length b) 4)) [
    | inl short ↦ rw short (λ h. (ltb→lt _ _ short, tt))
    | inr long ↦
        let n = read_length (take 4 b) in
        rw long (
          check_length-Kept (λ r. drain read_length accept limit fuel r none) (drop 4 b) n
            (drain_header-Kept fuel (drop n (drop 4 b))))
  ]

  drain-Kept :
      (fuel : ℕ) (b c : List ℕ) (expected : Option ℕ)
      → Holds expected b
      → Kept (drain read_length accept limit fuel c expected)
  unfolding drain
  drain-Kept zero b c expected v = λ h. cc
  drain-Kept (suc fuel) b c none v = drain_header-Kept (suc fuel) c
  drain-Kept (suc fuel) b c (some n) v =
      take_body-Kept (λ r. drain read_length accept limit fuel r none) c n v.1 v.2
        (drain_header-Kept fuel (drop n c))

  abbrev Delivered : Decoder × Fed M → Type 0
  Delivered (d, frames out) = Holds d.expected_length d.buffered × All IsRead out
  Delivered (d, error e) = Unit
  Delivered (d, diverged) = Unit

  settle-Delivered :
      (fs : List M) (b : List ℕ) (x : Option ℕ) (s : Stop)
      → (s ≡ stalled → Holds x b × All IsRead fs)
      → Delivered (settle fs b x s)
  unfolding settle
  settle-Delivered fs b x stalled k = k refl
  settle-Delivered fs b x (threw y) k = tt
  settle-Delivered fs b x out_of_fuel k = tt

  feed-Delivered :
      (d : Decoder) (chunk : List ℕ)
      → Holds d.expected_length d.buffered
      → Delivered (feed read_length accept limit d chunk)
  unfolding feed
  feed-Delivered d chunk v = go d.failed (length chunk == 0) (
      settle-Delivered r.frames r.buffered r.expected_length r.stop
        (drain-Kept (length all + 2) d.buffered all d.expected_length v))
    where
      all : List ℕ
      all = d.buffered ++ chunk

      r : Drained M
      r = drain read_length accept limit (length all + 2) all d.expected_length

      go :
          (failed empty : Bool)
          → Delivered (settled r)
          → Delivered (
              if failed
              then (d, error closed_after_error)
              else if empty
              then (d, frames [])
              else settled r)
      go true empty k = tt
      go false true k = (v, tt)
      go false false k = k

  pending_bytes-le :
      (d : Decoder) → Holds d.expected_length d.buffered → pending_bytes d ≤ limit + 3
  unfolding pending_bytes
  pending_bytes-le d v = go d.buffered d.expected_length v
    where
      go :
          (b : List ℕ) (x : Option ℕ)
          → Holds x b
          → length b + (elim x [ none ↦ 0 | some n ↦ 4 ]) ≤ limit + 3
      go b none v = omega arith
      go b (some n) v = omega arith

  -- Between two chunks a decoder has refused one, or holds back nothing that could be delivered.
  abbrev Ready : Decoder → Type 0
  Ready d = (d.failed ≡ true) ⊎ Holds d.expected_length d.buffered

  settle-Ready :
      (fs : List M) (b : List ℕ) (x : Option ℕ) (s : Stop)
      → (s ≡ stalled → Holds x b × All IsRead fs)
      → s ≢ out_of_fuel
      → Ready (settle fs b x s).0
  unfolding settle
  settle-Ready fs b x stalled k n = inr (k refl).0
  settle-Ready fs b x (threw y) k n = inl refl
  settle-Ready fs b x out_of_fuel k n = elim (n refl) [ ]

  feed-Ready :
      (d : Decoder) (chunk : List ℕ) → Ready d → Ready (feed read_length accept limit d chunk).0
  unfolding feed
  feed-Ready d chunk v = go d.failed (length chunk == 0) (λ o.
      settle-Ready r.frames r.buffered r.expected_length r.stop
        (drain-Kept (length all + 2) d.buffered all d.expected_length (held o))
        (drain-Ends read_length accept limit (length all + 2) all d.expected_length (omega arith)))
    where
      all : List ℕ
      all = d.buffered ++ chunk

      r : Drained M
      r = drain read_length accept limit (length all + 2) all d.expected_length

      held : d.failed ≡ false → Holds d.expected_length d.buffered
      held o = elim v [ inl closed ↦ true_false closed o | inr h ↦ h ]

      go :
          (failed empty : Bool)
          → (failed ≡ false → Ready (settled r).0)
          → Ready
              (if failed
                then (d, error closed_after_error)
                else if empty
                then (d, frames [])
                else settled r).0
      go true empty k = v
      go false true k = v
      go false false k = k refl

  -- The decoder that chunks of bytes, fed one behind the other, leave.
  unfoldable pub fed_all : List (List ℕ) → Decoder → Decoder
  fed_all [] d = d
  fed_all (chunk ∷ chunks) d = fed_all chunks (feed read_length accept limit d chunk).0

  fed_all-Ready : (chunks : List (List ℕ)) (d : Decoder) → Ready d → Ready (fed_all chunks d)
  unfolding fed_all
  fed_all-Ready [] d v = v
  fed_all-Ready (chunk ∷ chunks) d v =
      fed_all-Ready chunks (feed read_length accept limit d chunk).0 (feed-Ready d chunk v)

  feed_of_Ready :
      (d : Decoder) (chunk : List ℕ) (d' : Decoder) (out : List M)
      → Ready d
      → feed read_length accept limit d chunk ≡ (d', frames out)
      → Holds d'.expected_length d'.buffered × All IsRead out
  unfolding feed
  feed_of_Ready d chunk d' out (inl closed) e = cc (rw closed at e)
  feed_of_Ready d chunk d' out (inr v) e = subst Delivered e (feed-Delivered d chunk v)

  -- After any chunks of any bytes that a new decoder was fed, a call of `feed` that returns leaves less
  -- than one frame in the buffer, under an admissible length if one was read, and has delivered only
  -- messages that it read from bodies of admissible length. So the bytes pending after it are at most
  -- the limit and three.
  pub feed-Holds :
      (chunks : List (List ℕ)) (chunk : List ℕ) (d' : Decoder) (out : List M)
      → feed read_length accept limit (fed_all chunks fresh) chunk ≡ (d', frames out)
      → Holds d'.expected_length d'.buffered × All IsRead out × (pending_bytes d' ≤ limit + 3)
  feed-Holds chunks chunk d' out e =
      let ready = fed_all-Ready chunks fresh (inr (omega arith)) in
      let (h, all) = feed_of_Ready (fed_all chunks fresh) chunk d' out ready e in
      (h, all, pending_bytes-le d' h)
