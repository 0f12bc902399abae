-- ===== src/Channel/Replay.antt =====
-- Replay of frames over the calls of `SecureSessionChannel` of src/companion/channel/index.ts.
use agent_tab_bridge.Base.{
  ℕ, ◌+◌, ◌-◌, ◌≡◌, refl, true, false, not, ◌&&◌, ◌||◌, Option, none, some, List, [], ◌∷◌, ltb, leb,
  ◌==◌, length, nat_eq, ◌⊎◌, inl, inr, if_ind, arith,
}
use agent_tab_bridge.Base.Results.{ok, err}
use agent_tab_bridge.Channel.Defs.{
  channel_closed, tampered_frame, replayed_frame, reordered_frame, frame_too_large, Bytes,
  frame_header_bytes, tag_bytes, frame_version, frame_data, frame_close, frame_rekey,
  max_close_reason_chars, Answer, fail, abort, advance, send_closed, then_frame, one_frame,
  close_local, byte_at, type_of, known_type, regressed, skipped, next_epoch, seal_frame, seal_rekey,
  after_rekey, seal_in_epoch, send, rekey, close, accept_frame, decrypted, open_frame, receive,
  Crypto, ChannelFailure, Receipt, Direction, Channel,
}

-- A method call of the channel.
pub data Call : Type 0 where
  send_call : Bytes → Call
  rekey_call abort_call : Call
  close_call : ℕ → Bytes → Call
  receive_call : Bytes → Call

-- The frame lies before the position that is expected, or nothing is received any more.
abbrev pub Past : Bytes → Channel → Type 0
Past f ch = (ch.failed ≡ true) ⊎ (ch.peer_closed ≡ true) ⊎ (regressed f ch.recv_direction ≡ true)

abbrev PastAfter : {A : Type 0} → Bytes → Answer A → Type 0
PastAfter f a = Past f a.0

abbrev KeepsPast : {A : Type 0} → Bytes → Channel → Answer A → Type 0
KeepsPast f ch a = Past f ch → Past f a.0

module _ (crypto : Crypto) where
  -- The channel that a call leaves.
  unfoldable pub call : Call → Channel → Channel
  call (send_call p) ch = (send crypto p ch).0
  call rekey_call ch = (rekey crypto ch).0
  call abort_call ch = abort ch
  call (close_call n p) ch = (close crypto n p ch).0
  call (receive_call f) ch = (receive crypto f ch).0

  unfoldable pub calls : List Call → Channel → Channel
  calls [] ch = ch
  calls (c ∷ cs) ch = calls cs (call c ch)

  pub fail-Past : (f : Bytes) (ch : Channel) → Past f (fail ch)
  unfolding fail
  fail-Past f ch = inl refl

  abort-Past : (f : Bytes) (ch : Channel) → Past f ch → Past f (abort ch)
  unfolding abort
  abort-Past f ch h =
      if_ind (λ x. Past f x) (ch.failed || (ch.local_closed && ch.peer_closed)) (λ _. h)
        (λ _. fail-Past f ch)

  regressed-advance :
      (f : Bytes) (d : Direction) → regressed f d ≡ true → regressed f (advance d) ≡ true
  regressed-advance f d h = ground arith

  regressed-next_epoch :
      (f : Bytes) (d : Direction) → regressed f d ≡ true → regressed f (next_epoch crypto d) ≡ true
  unfolding next_epoch
  regressed-next_epoch f d h = ground arith

  accept_frame-Past :
      (f : Bytes) (t : ℕ) (p : Bytes) (ch : Channel) → KeepsPast f ch (accept_frame crypto t p ch)
  unfolding accept_frame
  accept_frame-Past f t p ch h =
      if_ind (PastAfter f) (t == frame_rekey)
        (λ _.
          if_ind (PastAfter f) (leb ch.max_epoch ch.recv_direction.epoch) (λ _. fail-Past f ch)
            (λ _. elim h [
              | inl e ↦ inl e
              | inr (inl e) ↦ inr (inl e)
              | inr (inr e) ↦ inr (inr (regressed-next_epoch f ch.recv_direction e))
            ]))
        (λ _.
          if_ind (PastAfter f) (t == frame_close) (λ _. inr (inl refl))
            (λ _. elim h [
              | inl e ↦ inl e
              | inr (inl e) ↦ inr (inl e)
              | inr (inr e) ↦ inr (inr (regressed-advance f ch.recv_direction e))
            ]))

  open_frame-Past :
      (f : Bytes) (t : ℕ) (o : Option Bytes) (ch : Channel)
      → KeepsPast f ch (open_frame crypto t o ch)
  open_frame-Past f t none ch h = h
  open_frame-Past f t (some p) ch h = accept_frame-Past f t p ch h

  -- What holds of every refusal that leaves the channel, and of an opened frame at the expected
  -- position, holds of `receive`.
  pub receive_ind :
      (P : Answer Receipt → Type 0) (f : Bytes) (ch : Channel)
      → ((e : ChannelFailure) → P (ch, err e))
      → (ch.failed ≡ false
          → ch.peer_closed ≡ false
          → regressed f ch.recv_direction ≡ false
          → skipped f ch.recv_direction ≡ false
          → P (open_frame crypto (type_of f) (decrypted crypto f ch) ch))
      → P (receive crypto f ch)
  unfolding receive
  receive_ind P f ch refused opened =
      if_ind P ch.failed (λ _. refused channel_closed)
        (λ h1.
          if_ind P ch.peer_closed (λ _. refused channel_closed)
            (λ h2.
              if_ind P (ltb (length f) (frame_header_bytes + tag_bytes))
                (λ _. refused tampered_frame)
                (λ _.
                  if_ind P (ltb (frame_header_bytes + ch.max_frame_bytes + tag_bytes) (length f))
                    (λ _. refused frame_too_large)
                    (λ _.
                      if_ind P (not (byte_at 0 f == frame_version) || not (known_type (type_of f)))
                        (λ _. refused tampered_frame)
                        (λ _.
                          if_ind P (regressed f ch.recv_direction) (λ _. refused replayed_frame)
                            (λ h3.
                              if_ind P (skipped f ch.recv_direction) (λ _. refused reordered_frame)
                                (λ h4. opened h1 h2 h3 h4)))))))

  receive-Past : (f g : Bytes) (ch : Channel) → KeepsPast f ch (receive crypto g ch)
  receive-Past f g ch h =
      receive_ind (PastAfter f) g ch (λ _. h)
        (λ _ _ _ _. open_frame-Past f (type_of g) (decrypted crypto g ch) ch h)

  seal_frame-Past :
      (f : Bytes) (t : ℕ) (p : Bytes) (ch : Channel) → KeepsPast f ch (seal_frame crypto t p ch)
  unfolding seal_frame
  seal_frame-Past f t p ch h = if_ind (PastAfter f) ch.send_direction.destroyed (λ _. h) (λ _. h)

  seal_rekey-Past : (f : Bytes) (ch : Channel) → KeepsPast f ch (seal_rekey crypto ch)
  unfolding seal_rekey
  seal_rekey-Past f ch h =
      if_ind (PastAfter f) (leb ch.max_epoch ch.send_direction.epoch) (λ _. fail-Past f ch)
        (λ _. if_ind (PastAfter f) ch.send_direction.destroyed (λ _. h) (λ _. h))

  one_frame-Past : (f : Bytes) (a : Answer Bytes) → PastAfter f a → PastAfter f (one_frame a)
  one_frame-Past f (ch, ok frame) h = h
  one_frame-Past f (ch, err e) h = h

  then_frame-Past : (f b : Bytes) (a : Answer Bytes) → PastAfter f a → PastAfter f (then_frame b a)
  then_frame-Past f b (ch, ok frame) h = h
  then_frame-Past f b (ch, err e) h = h

  after_rekey-Past :
      (f : Bytes) (t : ℕ) (p : Bytes) (a : Answer Bytes)
      → PastAfter f a
      → PastAfter f (after_rekey crypto t p a)
  after_rekey-Past f t p (ch, ok frame) h =
      then_frame-Past f frame (seal_frame crypto t p ch) (seal_frame-Past f t p ch h)
  after_rekey-Past f t p (ch, err e) h = h

  seal_in_epoch-Past :
      (f : Bytes) (t : ℕ) (p : Bytes) (ch : Channel) → KeepsPast f ch (seal_in_epoch crypto t p ch)
  unfolding seal_in_epoch
  seal_in_epoch-Past f t p ch h =
      if_ind (PastAfter f) (leb (ch.frames_per_epoch - 1) ch.send_direction.counter)
        (λ _. after_rekey-Past f t p (seal_rekey crypto ch) (seal_rekey-Past f ch h))
        (λ _. one_frame-Past f (seal_frame crypto t p ch) (seal_frame-Past f t p ch h))

  send-Past : (f p : Bytes) (ch : Channel) → KeepsPast f ch (send crypto p ch)
  unfolding send
  send-Past f p ch h =
      if_ind (PastAfter f) (send_closed ch) (λ _. h)
        (λ _.
          if_ind (PastAfter f) (ltb ch.max_frame_bytes (length p)) (λ _. h)
            (λ _. seal_in_epoch-Past f frame_data p ch h))

  close_local-Past :
      (f : Bytes) (a : Answer (List Bytes)) → PastAfter f a → PastAfter f (close_local a)
  close_local-Past f (ch, ok frames) h = h
  close_local-Past f (ch, err e) h = h

  close-Past : (f : Bytes) (n : ℕ) (p : Bytes) (ch : Channel) → KeepsPast f ch (close crypto n p ch)
  unfolding close
  close-Past f n p ch h =
      if_ind (PastAfter f) (send_closed ch) (λ _. h)
        (λ _.
          if_ind (PastAfter f) (ltb max_close_reason_chars n) (λ _. h)
            (λ _.
              if_ind (PastAfter f) (ltb ch.max_frame_bytes (length p)) (λ _. h)
                (λ _.
                  close_local-Past f (seal_in_epoch crypto frame_close p ch)
                    (seal_in_epoch-Past f frame_close p ch h))))

  rekey-Past : (f : Bytes) (ch : Channel) → KeepsPast f ch (rekey crypto ch)
  unfolding rekey
  rekey-Past f ch h = if_ind (PastAfter f) (send_closed ch) (λ _. h) (λ _. seal_rekey-Past f ch h)

  call-Past : (f : Bytes) (c : Call) (ch : Channel) → Past f ch → Past f (call c ch)
  unfolding call
  call-Past f (send_call p) ch h = send-Past f p ch h
  call-Past f rekey_call ch h = rekey-Past f ch h
  call-Past f abort_call ch h = abort-Past f ch h
  call-Past f (close_call n p) ch h = close-Past f n p ch h
  call-Past f (receive_call g) ch h = receive-Past f g ch h

  calls-Past : (f : Bytes) (cs : List Call) (ch : Channel) → Past f ch → Past f (calls cs ch)
  unfolding calls
  calls-Past f [] ch h = h
  calls-Past f (c ∷ cs) ch h = calls-Past f cs (call c ch) (call-Past f c ch h)

  -- What `receive` accepts is at the expected position and authentic.
  abbrev Accepts : Bytes → Channel → Answer Receipt → Type 0
  Accepts f ch a = (r : Receipt) → a.1 ≡ ok r → Past f a.0

  refused-Accepts : (f : Bytes) (ch : Channel) (e : ChannelFailure) → Accepts f ch (ch, err e)
  refused-Accepts f ch e r h = ground arith

  accept_frame-Accepts :
      (f p : Bytes) (ch : Channel)
      → regressed f ch.recv_direction ≡ false
      → skipped f ch.recv_direction ≡ false
      → Accepts f ch (accept_frame crypto (type_of f) p ch)
  unfolding accept_frame next_epoch
  accept_frame-Accepts f p ch hr hs =
      if_ind (Accepts f ch) (type_of f == frame_rekey)
        (λ _.
          if_ind (Accepts f ch) (leb ch.max_epoch ch.recv_direction.epoch) (λ _ r h. fail-Past f ch)
            (λ _ r h. inr (inr (ground arith))))
        (λ _.
          if_ind (Accepts f ch) (type_of f == frame_close) (λ _ r h. inr (inl refl))
            (λ _ r h. inr (inr (ground arith))))

  open_frame-Accepts :
      (f : Bytes) (o : Option Bytes) (ch : Channel)
      → regressed f ch.recv_direction ≡ false
      → skipped f ch.recv_direction ≡ false
      → Accepts f ch (open_frame crypto (type_of f) o ch)
  open_frame-Accepts f none ch hr hs = refused-Accepts f ch tampered_frame
  open_frame-Accepts f (some p) ch hr hs = accept_frame-Accepts f p ch hr hs

  receive-Accepts : (f : Bytes) (ch : Channel) → Accepts f ch (receive crypto f ch)
  receive-Accepts f ch =
      receive_ind (Accepts f ch) f ch (refused-Accepts f ch)
        (λ _ _ hr hs. open_frame-Accepts f (decrypted crypto f ch) ch hr hs)

  -- Refused without an effect.
  abbrev Refused : Channel → Answer Receipt → Type 0
  Refused ch a = (e : ChannelFailure) × (a ≡ (ch, err e))

  receive-Refused : (f : Bytes) (ch : Channel) → Past f ch → Refused ch (receive crypto f ch)
  receive-Refused f ch h =
      receive_ind (Refused ch) f ch (λ e. (e, refl)) (λ h1 h2 h3 _. ground arith)

  -- A frame that was accepted is refused from then on, whatever is sent, received, rekeyed, closed
  -- or aborted in between, and refusing it leaves the channel as it was.
  pub accepted_frame_is_refused :
      (f : Bytes) (ch : Channel) (r : Receipt) (cs : List Call)
      → (receive crypto f ch).1 ≡ ok r
      → (e : ChannelFailure) × (receive crypto f (calls cs (receive crypto f ch).0)
          ≡ (calls cs (receive crypto f ch).0, err e))
  accepted_frame_is_refused f ch r cs h =
      receive-Refused f (calls cs (receive crypto f ch).0)
        (calls-Past f cs (receive crypto f ch).0 (receive-Accepts f ch r h))
