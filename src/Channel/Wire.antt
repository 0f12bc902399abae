-- ===== src/Channel/Wire.antt =====
-- The layout of a frame of src/companion/channel/index.ts, as `seal` writes it and `receive` reads
-- it.
use agent_tab_bridge.Base.{
  ℕ, ◌+◌, ◌-◌, ◌<◌, ◌≡◌, refl, ap, ◌∙◌, [], ◌∷◌, ◌++◌, length, take, drop, length-append,
  take-append_eq, drop-append_eq, take-append_le, drop-append_le, arith,
}
use agent_tab_bridge.Base.Bytes.{write_be, read_be, length-write_be, read_be-write_be, capacity}
use agent_tab_bridge.Channel.Defs.{
  Bytes, frame_header, type_of, byte_at, epoch_of, counter_of, ciphertext_of, tag_of, tag_bytes,
  frame_header_bytes,
}

abbrev pub wire : ℕ → ℕ → ℕ → Bytes → Bytes → Bytes
wire t e c ciphertext tag = frame_header t e c ++ (ciphertext ++ tag)

length-position : (e c : ℕ) → length (write_be 4 e ++ write_be 8 c) ≡ 12
length-position e c = omega (
  arith,
  length-append {0} (write_be 4 e) (write_be 8 c),
  length-write_be 4 e,
  length-write_be 8 c,
)

pub length-frame_header : (t e c : ℕ) → length (frame_header t e c) ≡ 14
unfolding frame_header
length-frame_header t e c = omega (arith, length-position e c)

pub length-wire : (t e c : ℕ) (x y : Bytes) → length (wire t e c x y) ≡ 14 + length x + length y
length-wire t e c x y = omega (
  arith,
  length-append {0} (frame_header t e c) (x ++ y),
  length-append {0} x y,
  length-frame_header t e c,
)

pub type_of-wire : (t e c : ℕ) (x y : Bytes) → type_of (wire t e c x y) ≡ t
unfolding frame_header
type_of-wire t e c x y = refl

pub version-wire : (t e c : ℕ) (x y : Bytes) → byte_at 0 (wire t e c x y) ≡ 1
unfolding frame_header
version-wire t e c x y = refl

pub epoch_of-wire : (t e c : ℕ) (x y : Bytes) → e < capacity 4 → epoch_of (wire t e c x y) ≡ e
unfolding frame_header
epoch_of-wire t e c x y h =
    ap read_be (
      take-append_le {0} 4 (write_be 4 e ++ write_be 8 c) (x ++ y)
        (omega (arith, length-position e c))
      ∙ take-append_eq {0} 4 (write_be 4 e) (write_be 8 c) (length-write_be 4 e))
    ∙ read_be-write_be 4 e h

pub counter_of-wire : (t e c : ℕ) (x y : Bytes) → c < capacity 8 → counter_of (wire t e c x y) ≡ c
unfolding frame_header
counter_of-wire t e c x y h =
    ap read_be (
      ap (take 8) (
        drop-append_le {0} 4 (write_be 4 e ++ write_be 8 c) (x ++ y)
          (omega (arith, length-position e c))
        ∙ ap (λ (l : Bytes). l ++ (x ++ y))
            (drop-append_eq {0} 4 (write_be 4 e) (write_be 8 c) (length-write_be 4 e)))
      ∙ take-append_eq {0} 8 (write_be 8 c) (x ++ y) (length-write_be 8 c))
    ∙ read_be-write_be 8 c h

pub header-wire :
    (t e c : ℕ) (x y : Bytes) → take frame_header_bytes (wire t e c x y) ≡ frame_header t e c
header-wire t e c x y =
    take-append_eq {0} 14 (frame_header t e c) (x ++ y) (length-frame_header t e c)

rest-wire : (t e c : ℕ) (x y : Bytes) → drop 14 (wire t e c x y) ≡ x ++ y
rest-wire t e c x y =
    drop-append_eq {0} 14 (frame_header t e c) (x ++ y) (length-frame_header t e c)

pub ciphertext_of-wire :
    (t e c : ℕ) (x y : Bytes) → length y ≡ tag_bytes → ciphertext_of (wire t e c x y) ≡ x
ciphertext_of-wire t e c x y h =
    ap (take (length (wire t e c x y) - 16 - 14)) (rest-wire t e c x y)
    ∙ take-append_eq {0} (length (wire t e c x y) - 16 - 14) x y
        (omega (arith, length-wire t e c x y))

append_assoc : (x y z : Bytes) → x ++ (y ++ z) ≡ (x ++ y) ++ z
append_assoc [] y z = refl
append_assoc (b ∷ x) y z = ap (◌∷◌ b) (append_assoc x y z)

pub tag_of-wire : (t e c : ℕ) (x y : Bytes) → length y ≡ tag_bytes → tag_of (wire t e c x y) ≡ y
tag_of-wire t e c x y h =
    ap (drop (length (wire t e c x y) - 16)) (append_assoc (frame_header t e c) x y)
    ∙ drop-append_eq {0} (length (wire t e c x y) - 16) (frame_header t e c ++ x) y (
        omega (
          arith,
          length-wire t e c x y,
          length-append {0} (frame_header t e c) x,
          length-frame_header t e c,
        ))
