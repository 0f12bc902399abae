-- ===== src/Framing/Stream.antt =====
-- The decoder on a stream that an encoder has written, cut into chunks anywhere.
use mathlib.Core.List.{append_assoc}
use agent_tab_bridge.Base.{
  ℕ, zero, suc, ◌+◌, ◌≤◌, ◌<◌, ◌≡◌, refl, sym, ap, ◌∙◌, Bool, false, ◌||◌, Option, none, some, List,
  [], ◌∷◌, ◌++◌, ltb, ◌==◌, length, take, drop, length-drop, length-append, take-append_le,
  drop-append_le, take-append_eq, drop-append_eq, nat_eq, arith, Bool-cases, inl, inr, ltb_false→le,
  ltb→lt, lt→ltb, All, All-right, subst, suc_beq_zero,
}
use agent_tab_bridge.Framing.Decoder.{
  Decoder, fresh, stalled, Drained, Fed, frames, error, diverged, deliver, settle, settled,
  take_body, check_length, take_header, drain, feed,
}

module _ {M : Type 0} where
  abbrev after : List M → Decoder × Fed M → Decoder × Fed M
  after out (d, frames more) = (d, frames (out ++ more))
  after out (d, error e) = (d, error e)
  after out (d, diverged) = (d, diverged)

  abbrev proceed : (Decoder → Decoder × Fed M) → Decoder × Fed M → Decoder × Fed M
  proceed next (d, frames out) = after out (next d)
  proceed next (d, error e) = (d, error e)
  proceed next (d, diverged) = (d, diverged)

  -- Feeds the chunks in turn and joins what they deliver, up to the first error.
  unfoldable pub gather :
      (Decoder → List ℕ → Decoder × Fed M) → Decoder → List (List ℕ) → Decoder × Fed M
  gather step d [] = (d, frames [])
  gather step d (chunk ∷ chunks) = proceed (λ d'. gather step d' chunks) (step d chunk)

abbrev pub concat : List (List ℕ) → List ℕ
concat [] = []
concat (c ∷ cs) = c ++ concat cs

module _ {M : Type 0} (read_length : List ℕ → ℕ) (accept : List ℕ → Option M) (limit : ℕ)
    (write_length : ℕ → List ℕ) (body : M → List ℕ) where
  abbrev pub stream : List M → List ℕ
  stream [] = []
  stream (m ∷ ms) = write_length (length (body m)) ++ (body m ++ stream ms)

  -- A message that the encoder takes, and whose bytes the decoder takes for it.
  pub record Sendable (m : M) : Type 0 where
    pub accepted : accept (body m) ≡ some m
    pub nonempty : 0 < length (body m)
    pub within : length (body m) ≤ limit

  -- What is buffered and what is to come, `bytes`, is the rest of a stream.
  abbrev Synced : Option ℕ → List ℕ → List M → Type 0
  Synced none bytes ms = bytes ≡ stream ms
  Synced (some n) bytes [] = ⊥
  Synced (some n) bytes (m ∷ ms) = (n ≡ length (body m)) × (bytes ≡ body m ++ stream ms)

  -- What is buffered is too little for another step.
  abbrev Short : Option ℕ → List ℕ → Type 0
  Short none b = length b < 4
  Short (some n) b = length b < n

  record Progress (r : Drained M) (rest : List ℕ) (ms : List M) : Type 0 where
    left : List M
    stopped : r.stop ≡ stalled
    split : ms ≡ r.frames ++ left
    synced : Synced r.expected_length (r.buffered ++ rest) left
    short : Short r.expected_length r.buffered

  module _ (length-written : (n : ℕ) → length (write_length n) ≡ 4)
      (read-written : (n : ℕ) → n ≤ limit → read_length (write_length n) ≡ n) where
    deliver-Progress :
        (next : List ℕ → Drained M) (b rest : List ℕ) (n : ℕ) (m : M) (ms : List M)
        → Progress (next b) rest ms
        → Progress (deliver next b n (some m)) rest (m ∷ ms)
    unfolding deliver
    deliver-Progress next b rest n m ms p = record {
      left = p.left;
      stopped = p.stopped;
      split = ap (◌∷◌ m) p.split;
      synced = p.synced;
      short = p.short;
    }

    take_body-Progress :
        (next : List ℕ → Drained M) (b rest : List ℕ) (m : M) (ms : List M)
        → Sendable m
        → b ++ rest ≡ body m ++ stream ms
        → (drop (length (body m)) b ++ rest ≡ stream ms
            → Progress (next (drop (length (body m)) b)) rest ms)
        → Progress (take_body read_length accept limit next b (length (body m))) rest (m ∷ ms)
    unfolding take_body
    take_body-Progress next b rest m ms ok e go =
        let n = length (body m) in
        elim (Bool-cases (ltb (length b) n)) [
          | inl short ↦ rw short (record {
            left = m ∷ ms;
            stopped = refl;
            split = refl;
            synced = (refl, e);
            short = ltb→lt _ _ short;
          })
          | inr long ↦
              let fits : n ≤ length b = ltb_false→le _ _ long in
              let taken : take n b ≡ body m =
                sym (take-append_le n b rest fits)
                ∙ ap (take n) e
                ∙ take-append_eq n (body m) (stream ms) refl in
              let dropped : drop n b ++ rest ≡ stream ms =
                sym (drop-append_le n b rest fits)
                ∙ ap (drop n) e
                ∙ drop-append_eq n (body m) (stream ms) refl in
              rw (long, taken, ok.accepted)
                (deliver-Progress next (drop n b) rest n m ms (go dropped))
        ]

    check_length-Progress :
        (next : List ℕ → Drained M) (b rest : List ℕ) (m : M) (ms : List M)
        → Sendable m
        → b ++ rest ≡ body m ++ stream ms
        → (drop (length (body m)) b ++ rest ≡ stream ms
            → Progress (next (drop (length (body m)) b)) rest ms)
        → Progress (check_length read_length accept limit next b (length (body m))) rest (m ∷ ms)
    unfolding check_length
    check_length-Progress next b rest m ms ok e go =
        let good : (length (body m) == 0 || ltb limit (length (body m))) ≡ false =
          ground (arith, ok.nonempty, ok.within) in
        rw good (take_body-Progress next b rest m ms ok e go)

    drain_header-Progress :
        (fuel : ℕ) (b rest : List ℕ) (ms : List M)
        → length b < fuel
        → All Sendable ms
        → b ++ rest ≡ stream ms
        → Progress (drain read_length accept limit fuel b none) rest ms
    unfolding drain take_header
    drain_header-Progress zero b rest ms h ok e = elim h [ ]
    drain_header-Progress (suc fuel) b rest [] h ok e =
        let empty : length b ≡ 0 = omega (arith, ap length e, length-append {0} b rest) in
        rw (lt→ltb (length b) 4 (omega arith))
          (record { left = []; stopped = refl; split = refl; synced = e; short = omega arith })
    drain_header-Progress (suc fuel) b rest (m ∷ ms) h ok e = elim (Bool-cases (ltb (length b) 4)) [
      | inl short ↦ rw short (record {
        left = m ∷ ms;
        stopped = refl;
        split = refl;
        synced = e;
        short = ltb→lt _ _ short;
      })
      | inr long ↦
          let n = length (body m) in
          let fits : 4 ≤ length b = ltb_false→le _ _ long in
          let taken : take 4 b ≡ write_length n =
            sym (take-append_le 4 b rest fits)
            ∙ ap (take 4) e
            ∙ take-append_eq 4 (write_length n) _ (length-written n) in
          let dropped : drop 4 b ++ rest ≡ body m ++ stream ms =
            sym (drop-append_le 4 b rest fits)
            ∙ ap (drop 4) e
            ∙ drop-append_eq 4 (write_length n) _ (length-written n) in
          rw (long, taken, read-written n (ok.0).within)
            (check_length-Progress (λ r. drain read_length accept limit fuel r none) (drop 4 b) rest
              m ms ok.0 dropped
              (drain_header-Progress fuel (drop n (drop 4 b)) rest ms
                (omega (arith, length-drop {0} n (drop 4 b), length-drop {0} 4 b)) ok.1))
    ]

    drain-Progress :
        (fuel : ℕ) (b rest : List ℕ) (expected : Option ℕ) (ms : List M)
        → length b + 1 < fuel
        → All Sendable ms
        → Synced expected (b ++ rest) ms
        → Progress (drain read_length accept limit fuel b expected) rest ms
    unfolding drain
    drain-Progress zero b rest expected ms h ok s = elim h [ ]
    drain-Progress (suc fuel) b rest none ms h ok s =
        drain_header-Progress (suc fuel) b rest ms (omega arith) ok s
    drain-Progress (suc fuel) b rest (some n) [] h ok s = absurd s
    drain-Progress (suc fuel) b rest (some n) (m ∷ ms) h ok s = rw s.0 (
        take_body-Progress (λ r. drain read_length accept limit fuel r none) b rest m ms ok.0 s.1
          (drain_header-Progress fuel (drop (length (body m)) b) rest ms
            (omega (arith, length-drop {0} (length (body m)) b)) ok.1))

    -- A decoder between two calls of `feed`, with `rest` still to come.
    record Between (d : Decoder) (rest : List ℕ) (ms : List M) : Type 0 where
      alive : d.failed ≡ false
      synced : Synced d.expected_length (d.buffered ++ rest) ms
      short : Short d.expected_length d.buffered

    record FedSome (d : Decoder) (chunk rest : List ℕ) (ms : List M) : Type 0 where
      next : Decoder
      out : List M
      left : List M
      fed : feed read_length accept limit d chunk ≡ (next, frames out)
      split : ms ≡ out ++ left
      between : Between next rest left

    settle_stalled :
        (r : Drained M)
        → r.stop ≡ stalled
        → settled r ≡ (
          record { buffered = r.buffered; expected_length = r.expected_length; failed = false },
          frames r.frames,
        )
    unfolding settle
    settle_stalled r e = rw e

    feed-Between :
        (d : Decoder) (chunk rest : List ℕ) (ms : List M)
        → All Sendable ms
        → Between d (chunk ++ rest) ms
        → FedSome d chunk rest ms
    unfolding feed
    feed-Between d [] rest ms ok v = record {
      next = d;
      out = [];
      left = ms;
      fed = rw v.alive;
      split = refl;
      between = v;
    }
    feed-Between d (c ∷ chunk) rest ms ok v =
        let b = d.buffered ++ c ∷ chunk in
        let e : d.buffered ++ (c ∷ chunk ++ rest) ≡ b ++ rest =
          sym (append_assoc d.buffered (c ∷ chunk) rest) in
        let r = drain read_length accept limit (length b + 2) b d.expected_length in
        let p : Progress r rest ms =
          drain-Progress (length b + 2) b rest d.expected_length ms (omega arith) ok
            (subst (λ t. Synced d.expected_length t ms) e v.synced) in
        record {
          next = record {
            buffered = r.buffered;
            expected_length = r.expected_length;
            failed = false;
          };
          out = r.frames;
          left = p.left;
          fed = rw (v.alive, suc_beq_zero (length chunk)) (settle_stalled r p.stopped);
          split = p.split;
          between = record { alive = refl; synced = p.synced; short = p.short };
        }

    nothing_left : (d : Decoder) (ms : List M) → Between d [] ms → (ms ≡ []) × (d ≡ fresh)
    nothing_left d ms v = go d.buffered d.expected_length d.failed ms v.alive v.synced v.short
      where
        none_left :
            (b : List ℕ) (ms : List M) → b ++ [] ≡ stream ms → length b < 4 → (ms ≡ []) × (b ≡ [])
        none_left [] [] s h = (refl, refl)
        none_left (x ∷ b) [] s h = cc
        none_left b (m ∷ ms) s h = absurd (
            omega (
              arith,
              ap length s,
              length-append {0} b [],
              length-append {0} (write_length (length (body m))) (body m ++ stream ms),
              length-written (length (body m)),
            ))

        go :
            (b : List ℕ) (e : Option ℕ) (f : Bool) (ms : List M)
            → f ≡ false
            → Synced e (b ++ []) ms
            → Short e b
            → (ms ≡ [])
              × (◌≡◌ {A = Decoder} (record { buffered = b; expected_length = e; failed = f }) fresh)
        go b none f ms a s h = let (p, q) = none_left b ms s h in (p, cc)
        go b (some n) f [] a s h = absurd s
        go b (some n) f (m ∷ ms) a s h = absurd (
            omega (
              arith,
              s.0,
              ap length s.1,
              length-append {0} b [],
              length-append {0} (body m) (stream ms),
            ))

    gather-Between :
        (chunks : List (List ℕ)) (d : Decoder) (ms : List M)
        → All Sendable ms
        → Between d (concat chunks) ms
        → gather (feed read_length accept limit) d chunks ≡ (fresh, frames ms)
    unfolding gather
    gather-Between [] d ms ok v = let (p, q) = nothing_left d ms v in rw (p, q)
    gather-Between (chunk ∷ chunks) d ms ok v =
        let p = feed-Between d chunk (concat chunks) ms ok v in
        let ih : gather (feed read_length accept limit) p.next chunks ≡ (fresh, frames p.left) =
          gather-Between chunks p.next p.left
            (All-right Sendable p.out p.left (subst (All Sendable) p.split ok)) p.between in
        rw (p.fed, ih, p.split)

    -- Whatever the chunks, they deliver the messages of the stream, and nothing is left over.
    pub gather-stream :
        (chunks : List (List ℕ)) (ms : List M)
        → All Sendable ms
        → concat chunks ≡ stream ms
        → gather (feed read_length accept limit) fresh chunks ≡ (fresh, frames ms)
    gather-stream chunks ms ok e =
        gather-Between chunks fresh ms ok (record { alive = refl; synced = e; short = omega arith })
