-- ===== src/Channel/Delivery.antt =====
-- Delivery of payloads by `send` and `receive` of src/companion/channel/index.ts, between two ends
-- whose directions share their keys.
use agent_tab_bridge.Base.{
  ℕ, ◌+◌, ◌-◌, ◌<◌, ◌≤◌, ◌≡◌, refl, ap, sym, subst, ◌∙◌, Bool, true, false, not, ◌||◌, Option, none,
  some, List, [], ◌∷◌, ◌++◌, ltb, leb, ◌==◌, if◌then◌else◌, length, nat_eq, inl, inr, Bool-cases,
  All, arith,
}
use agent_tab_bridge.Base.Bytes.{capacity}
use agent_tab_bridge.Base.Results.{Result, ok, err}
use agent_tab_bridge.Channel.Defs.{
  Bytes, Crypto, CryptoLaws, ChannelFailure, Receipt, data', rekeyed, Direction, Channel, Answer,
  frame_header, frame_nonce, advance, next_epoch, with_send, with_recv, sealed_frame, seal_frame,
  seal_rekey, seal_in_epoch, send, send_closed, one_frame, then_frame, after_rekey, receive,
  open_frame, accept_frame, decrypted, known_type, type_of, epoch_of, counter_of, byte_at,
  regressed, skipped, frame_data, frame_rekey, frame_version, tag_bytes, frame_header_bytes,
}
use agent_tab_bridge.Channel.Wire.{
  wire, length-wire, type_of-wire, version-wire, epoch_of-wire, counter_of-wire, header-wire,
  ciphertext_of-wire, tag_of-wire,
}

-- One end sends into the direction that the other receives from, both within the limits that the
-- options of a channel have.
pub record Synced (s r : Channel) : Type 0 where
  pub same : s.send_direction ≡ r.recv_direction
  pub same_bound : s.max_frame_bytes ≡ r.max_frame_bytes
  pub same_limit : s.max_epoch ≡ r.max_epoch
  pub sending : send_closed s ≡ false
  pub working : r.failed ≡ false
  pub listening : r.peer_closed ≡ false
  pub keyed : s.send_direction.destroyed ≡ false
  pub two_frames : 2 ≤ s.frames_per_epoch
  pub frames_bound : s.frames_per_epoch ≤ 4294967296
  pub epochs_bound : s.max_epoch < 4294967296
  pub epoch_bound : s.send_direction.epoch ≤ s.max_epoch
  pub counter_bound : s.send_direction.counter < s.frames_per_epoch

if_no : {A : Type 0} {b : Bool} (x y : A) → b ≡ false → (if b then x else y) ≡ y
if_no {b = true} x y h = ground arith
if_no {b = false} x y h = refl

abbrev pub Delivery : Type 0
Delivery = Result {0, 0} ChannelFailure (Channel × List Bytes)

abbrev pub received : Receipt → Delivery → Delivery
received (data' p) (ok (r, ps)) = ok (r, p ∷ ps)
received (data' p) (err e) = err e
received rekeyed d = d
received (Receipt.closed reason) d = d

abbrev sent : Channel → Bytes → Answer Bytes
sent s f = (s, ok f)

epoch_fits : (s r : Channel) → Synced s r → r.recv_direction.epoch < capacity 4
epoch_fits s r h =
    subst (λ (d : Direction). d.epoch < capacity 4) h.same
      (omega (arith, h.epoch_bound, h.epochs_bound))

counter_fits : (s r : Channel) → Synced s r → r.recv_direction.counter < capacity 8
counter_fits s r h =
    subst (λ (d : Direction). d.counter < capacity 8) h.same
      (omega (arith, h.counter_bound, h.frames_bound))

keyed_too : (s r : Channel) → Synced s r → r.recv_direction.destroyed ≡ false
keyed_too s r h = subst (λ (d : Direction). d.destroyed ≡ false) h.same h.keyed

module _ (crypto : Crypto) where
  -- The frames of a transport, in order: the channel after them and the payloads they carry, or the
  -- first failure.
  unfoldable pub deliver : List Bytes → Channel → Delivery
  deliver [] r = ok (r, [])
  deliver (f ∷ fs) r =
      let (r1, answer) = receive crypto f r in
      elim answer [ ok receipt ↦ received receipt (deliver fs r1) | err e ↦ err e ]

  abbrev pub then_send : List Bytes → Answer (List Bytes) → Answer (List Bytes)
  then_send frames (s, ok more) = (s, ok (frames ++ more))
  then_send frames (s, err e) = (s, err e)

  -- Payloads sent one after the other, and their frames.
  unfoldable pub send_all : List Bytes → Channel → Answer (List Bytes)
  send_all [] s = (s, ok [])
  send_all (p ∷ ps) s =
      let (s1, answer) = send crypto p s in
      elim answer [ ok frames ↦ then_send frames (send_all ps s1) | err e ↦ (s1, err e) ]

  module _ (laws : CryptoLaws crypto) where
    abbrev sealed : Bytes → ℕ → Direction → Bytes × Bytes
    sealed p t d =
        crypto.seal d.key (frame_nonce d.epoch d.counter) (frame_header t d.epoch d.counter) p

    abbrev frame_of : ℕ → Bytes → Direction → Bytes
    frame_of t p d = wire t d.epoch d.counter (sealed p t d).0 (sealed p t d).1

    sealed_frame-wire :
        (t : ℕ) (p : Bytes) (d : Direction) → sealed_frame crypto t p d ≡ frame_of t p d
    unfolding sealed_frame
    sealed_frame-wire t p d = refl

    decrypted-frame_of :
        (t : ℕ) (p : Bytes) (r : Channel)
        → r.recv_direction.destroyed ≡ false
        → r.recv_direction.epoch < capacity 4
        → decrypted crypto (frame_of t p r.recv_direction) r ≡ some p
    decrypted-frame_of t p r hd he =
        let d = r.recv_direction in
        let c = (sealed p t d).0 in
        let g = (sealed p t d).1 in
        if_no none _ hd
        ∙ (rw
            (
              epoch_of-wire t d.epoch d.counter c g he,
              header-wire t d.epoch d.counter c g,
              ciphertext_of-wire t d.epoch d.counter c g (laws.length_tag _ _ _ _),
              tag_of-wire t d.epoch d.counter c g (laws.length_tag _ _ _ _),
            )
            (laws.unseal_seal d.key (frame_nonce d.epoch d.counter)
              (frame_header t d.epoch d.counter) p))

    length-frame_of :
        (t : ℕ) (p : Bytes) (d : Direction) → length (frame_of t p d) ≡ 14 + length p + 16
    length-frame_of t p d = omega (
      arith,
      length-wire t d.epoch d.counter (sealed p t d).0 (sealed p t d).1,
      laws.length_tag d.key (frame_nonce d.epoch d.counter) (frame_header t d.epoch d.counter) p,
      laws.length_ciphertext d.key (frame_nonce d.epoch d.counter)
          (frame_header t d.epoch d.counter) p,
    )

    -- The frame at the expected position is opened.
    receive-frame_of :
        (t : ℕ) (p : Bytes) (s r : Channel)
        → Synced s r
        → known_type t ≡ true
        → length p ≤ s.max_frame_bytes
        → receive crypto (frame_of t p r.recv_direction) r ≡ accept_frame crypto t p r
    unfolding receive frame_header
    receive-frame_of t p s r h ht hp =
        let d = r.recv_direction in
        let c = (sealed p t d).0 in
        let g = (sealed p t d).1 in
        let f = frame_of t p d in
        let e : epoch_of f ≡ d.epoch = epoch_of-wire t d.epoch d.counter c g (epoch_fits s r h) in
        let n : counter_of f ≡ d.counter =
          counter_of-wire t d.epoch d.counter c g (counter_fits s r h) in
        let long : ltb (length f) (frame_header_bytes + tag_bytes) ≡ false =
          ground (arith, length-frame_of t p d) in
        let fits : ltb (frame_header_bytes + r.max_frame_bytes + tag_bytes) (length f) ≡ false =
          ground (arith, length-frame_of t p d, h.same_bound) in
        let version : (not (byte_at 0 f == frame_version) || not (known_type (type_of f))) ≡ false =
          rw (version-wire t d.epoch d.counter c g, type_of-wire t d.epoch d.counter c g, ht) in
        let fresh : regressed f d ≡ false = ground (arith, e, n) in
        let next : skipped f d ≡ false = ground (arith, e, n) in
        let payload : decrypted crypto f r ≡ some p =
          decrypted-frame_of t p r (keyed_too s r h) (epoch_fits s r h) in
        if_no _ _ h.working
        ∙ if_no _ _ h.listening
        ∙ if_no _ _ long
        ∙ if_no _ _ fits
        ∙ if_no _ _ version
        ∙ if_no _ _ fresh
        ∙ if_no _ _ next
        ∙ ap (λ (o : Option Bytes). open_frame crypto (type_of f) o r) payload

    -- The channels after a frame of data, and after a rekey.
    Synced-advance :
        (s r : Channel)
        → Synced s r
        → s.send_direction.counter + 1 < s.frames_per_epoch
        → Synced (with_send s (advance s.send_direction)) (with_recv r (advance r.recv_direction))
    Synced-advance s r h hc = record {
      same = ap advance h.same;
      same_bound = h.same_bound;
      same_limit = h.same_limit;
      sending = h.sending;
      working = h.working;
      listening = h.listening;
      keyed = h.keyed;
      two_frames = h.two_frames;
      frames_bound = h.frames_bound;
      epochs_bound = h.epochs_bound;
      epoch_bound = h.epoch_bound;
      counter_bound = hc;
    }

    Synced-next_epoch :
        (s r : Channel)
        → Synced s r
        → s.send_direction.epoch < s.max_epoch
        → Synced
            (with_send s (next_epoch crypto s.send_direction))
            (with_recv r (next_epoch crypto r.recv_direction))
    unfolding next_epoch
    Synced-next_epoch s r h he = record {
      same = ap (next_epoch crypto) h.same;
      same_bound = h.same_bound;
      same_limit = h.same_limit;
      sending = h.sending;
      working = h.working;
      listening = h.listening;
      keyed = h.keyed;
      two_frames = h.two_frames;
      frames_bound = h.frames_bound;
      epochs_bound = h.epochs_bound;
      epoch_bound = omega (arith, he);
      counter_bound = omega (arith, h.two_frames);
    }

    seal_frame-Synced :
        (t : ℕ) (p : Bytes) (s r : Channel)
        → Synced s r
        → seal_frame crypto t p s
          ≡ (with_send s (advance s.send_direction), ok (frame_of t p r.recv_direction))
    unfolding seal_frame
    seal_frame-Synced t p s r h =
        if_no _ _ h.keyed
        ∙ ap
            (λ (d : Direction).
              sent (with_send s (advance s.send_direction)) (sealed_frame crypto t p d))
            h.same
        ∙ ap (λ (f : Bytes). sent (with_send s (advance s.send_direction)) f)
            (sealed_frame-wire t p r.recv_direction)

    seal_rekey-Synced :
        (s r : Channel)
        → Synced s r
        → s.send_direction.epoch < s.max_epoch
        → seal_rekey crypto s ≡ (
          with_send s (next_epoch crypto s.send_direction),
          ok (frame_of frame_rekey [] r.recv_direction),
        )
    unfolding seal_rekey
    seal_rekey-Synced s r h he =
        let more : leb s.max_epoch s.send_direction.epoch ≡ false = ground arith in
        if_no _ _ more
        ∙ if_no _ _ h.keyed
        ∙ ap
            (λ (d : Direction).
              sent (with_send s (next_epoch crypto s.send_direction))
                (sealed_frame crypto frame_rekey [] d))
            h.same
        ∙ ap (λ (f : Bytes). sent (with_send s (next_epoch crypto s.send_direction)) f)
            (sealed_frame-wire frame_rekey [] r.recv_direction)

    receive-data :
        (p : Bytes) (s r : Channel)
        → Synced s r
        → length p ≤ s.max_frame_bytes
        → receive crypto (frame_of frame_data p r.recv_direction) r
          ≡ (with_recv r (advance r.recv_direction), ok (data' p))
    unfolding accept_frame
    receive-data p s r h hp = receive-frame_of frame_data p s r h refl hp

    receive-rekey :
        (s r : Channel)
        → Synced s r
        → s.send_direction.epoch < s.max_epoch
        → receive crypto (frame_of frame_rekey [] r.recv_direction) r
          ≡ (with_recv r (next_epoch crypto r.recv_direction), ok rekeyed)
    unfolding accept_frame
    receive-rekey s r h he =
        let e : s.send_direction.epoch ≡ r.recv_direction.epoch =
          ap (λ (d : Direction). d.epoch) h.same in
        let more : leb r.max_epoch r.recv_direction.epoch ≡ false =
          ground (arith, e, h.same_limit) in
        receive-frame_of frame_rekey [] s r h refl (omega arith) ∙ if_no _ _ more

    deliver-receive :
        (f : Bytes) (fs : List Bytes) (r r1 : Channel) (receipt : Receipt)
        → receive crypto f r ≡ (r1, ok receipt)
        → deliver (f ∷ fs) r ≡ received receipt (deliver fs r1)
    unfolding deliver
    deliver-receive f fs r r1 receipt h =
        let after : Answer Receipt → Delivery =
          λ a. elim a.1 [ ok x ↦ received x (deliver fs a.0) | err e ↦ err e ] in
        ap after h

    -- One payload is sent, and received before whatever follows.
    record Arrives (p : Bytes) (s r : Channel) : Type 0 where
      s1 : Channel
      r1 : Channel
      frames : List Bytes
      sends : send crypto p s ≡ (s1, ok frames)
      synced : Synced s1 r1
      same_size : s1.max_frame_bytes ≡ s.max_frame_bytes
      same_epochs : s1.max_epoch ≡ s.max_epoch
      next : s1.send_direction.epoch ≤ s.send_direction.epoch + 1
      arrives : (fs : List Bytes) → deliver (frames ++ fs) r ≡ received (data' p) (deliver fs r1)

    send-open :
        (p : Bytes) (s r : Channel)
        → Synced s r
        → length p ≤ s.max_frame_bytes
        → send crypto p s ≡ seal_in_epoch crypto frame_data p s
    unfolding send
    send-open p s r h hp =
        let small : ltb s.max_frame_bytes (length p) ≡ false = ground arith in
        if_no _ _ h.sending ∙ if_no _ _ small

    seal_frame-Arrives :
        (p : Bytes) (s r : Channel)
        → Synced s r
        → length p ≤ s.max_frame_bytes
        → s.send_direction.counter + 1 < s.frames_per_epoch
        → Arrives p s r
    unfolding seal_in_epoch
    seal_frame-Arrives p s r h hp hc =
        let room : leb (s.frames_per_epoch - 1) s.send_direction.counter ≡ false = ground arith in
        record {
          s1 = with_send s (advance s.send_direction);
          r1 = with_recv r (advance r.recv_direction);
          frames = frame_of frame_data p r.recv_direction ∷ [];
          sends =
              send-open p s r h hp
              ∙ if_no _ _ room
              ∙ ap one_frame (seal_frame-Synced frame_data p s r h);
          synced = Synced-advance s r h hc;
          same_size = refl;
          same_epochs = refl;
          next = omega arith;
          arrives = λ fs.
              deliver-receive (frame_of frame_data p r.recv_direction) fs r
                (with_recv r (advance r.recv_direction)) (data' p) (receive-data p s r h hp);
        }

    if_yes : {A : Type 0} {b : Bool} (x y : A) → b ≡ true → (if b then x else y) ≡ x
    if_yes {b = true} x y h = refl
    if_yes {b = false} x y h = ground arith

    seal_rekey-Arrives :
        (p : Bytes) (s r : Channel)
        → Synced s r
        → length p ≤ s.max_frame_bytes
        → s.send_direction.epoch < s.max_epoch
        → s.frames_per_epoch ≤ s.send_direction.counter + 1
        → Arrives p s r
    unfolding seal_in_epoch next_epoch
    seal_rekey-Arrives p s r h hp he hc =
        let full : leb (s.frames_per_epoch - 1) s.send_direction.counter ≡ true = ground arith in
        let s1 = with_send s (next_epoch crypto s.send_direction) in
        let r1 = with_recv r (next_epoch crypto r.recv_direction) in
        let h1 : Synced s1 r1 = Synced-next_epoch s r h he in
        record {
          s1 = with_send s1 (advance s1.send_direction);
          r1 = with_recv r1 (advance r1.recv_direction);
          frames =
              frame_of frame_rekey [] r.recv_direction
              ∷ frame_of frame_data p r1.recv_direction
              ∷ [];
          sends =
              send-open p s r h hp
              ∙ if_yes _ _ full
              ∙ ap (after_rekey crypto frame_data p) (seal_rekey-Synced s r h he)
              ∙ ap (then_frame (frame_of frame_rekey [] r.recv_direction))
                  (seal_frame-Synced frame_data p s1 r1 h1);
          synced = Synced-advance s1 r1 h1 (omega (arith, h.two_frames));
          same_size = refl;
          same_epochs = refl;
          next = omega arith;
          arrives = λ fs.
              deliver-receive (frame_of frame_rekey [] r.recv_direction)
                (frame_of frame_data p r1.recv_direction ∷ fs) r r1 rekeyed (receive-rekey s r h he)
              ∙ deliver-receive (frame_of frame_data p r1.recv_direction) fs r1
                  (with_recv r1 (advance r1.recv_direction)) (data' p) (receive-data p s1 r1 h1 hp);
        }

    send-Arrives :
        (p : Bytes) (s r : Channel)
        → Synced s r
        → length p ≤ s.max_frame_bytes
        → s.send_direction.epoch < s.max_epoch
        → Arrives p s r
    send-Arrives p s r h hp he =
        elim (Bool-cases (ltb (s.send_direction.counter + 1) s.frames_per_epoch)) [
          | inl e ↦ seal_frame-Arrives p s r h hp (ground arith)
          | inr e ↦ seal_rekey-Arrives p s r h hp he (ground arith)
        ]

    -- The frames that `send` makes of some payloads, each within the bound and with an epoch left
    -- for each, are all accepted at the other end in their order, rekeys included, and give exactly
    -- these payloads; the two ends then agree again.
    pub sent_payloads_arrive :
        (ps : List Bytes) (s r : Channel)
        → Synced s r
        → All (λ p. length p ≤ s.max_frame_bytes) ps
        → s.send_direction.epoch + length ps ≤ s.max_epoch
        → (s1 : Channel) × (r1 : Channel) × (frames : List Bytes) × (send_all ps s
            ≡ (s1, ok frames))
          × (deliver frames r ≡ ok (r1, ps))
          × Synced s1 r1
    unfolding send_all deliver
    sent_payloads_arrive [] s r h hp he = (s, r, [], refl, refl, h)
    sent_payloads_arrive (p ∷ ps) s r h hp he =
        let after : Answer (List Bytes) → Answer (List Bytes) =
          λ b. elim b.1 [ ok fs ↦ then_send fs (send_all ps b.0) | err e ↦ (b.0, err e) ] in
        let a = send-Arrives p s r h hp.0 (omega arith) in
        let (s2, r2, frames, sends, gives, h2) =
          sent_payloads_arrive ps a.s1 a.r1 a.synced
            (subst (λ (n : ℕ). All (λ (q : Bytes). length q ≤ n) ps) (sym a.same_size) hp.1)
            (omega (arith, a.next, a.same_epochs)) in
        (
          s2,
          r2,
          a.frames ++ frames,
          ap after a.sends ∙ ap (then_send a.frames) sends,
          a.arrives frames ∙ ap (received (data' p)) gives,
          h2,
        )
