-- ===== src/Endpoint/Reading.antt =====
-- What the tests of single fields in src/companion/endpoint-contracts.ts find in a JSON value.
use agent_tab_bridge.Base.{
  ℕ, ◌≤◌, ◌≡◌, ◌≢◌, refl, sym, ap, ◌∙◌, Bool, true, not, ◌&&◌, &&-true, inl, inr, Bool-cases,
  Option, none, some, [], ◌∷◌, ◌++◌, ◌==◌, eq_iff, contains, length, take, drop, take-append-drop,
  nat_eq, list_eq, arith, leb, All,
}
use agent_tab_bridge.Base.Results.{Result, ok, err}
use agent_tab_bridge.Base.Text.{Str, codes, all_of, is_alphanumeric, is_upper, is_lower, is_digit}
use agent_tab_bridge.Json.{
  Json, undefined, null, bool, num, other_num, str, arr, obj, json_beq, json_beq-eq,
}
use agent_tab_bridge.Access.Defs.{
  Platform, Access, AccessError, is_session_access, read_access, is_ok_with, has_access_keys,
  to_json, normalize_session_access,
}
use agent_tab_bridge.Access.Normal.{IsNormal, normalize_session_access-IsNormal}
use agent_tab_bridge.Endpoint.Provenance.{
  is_print_char, is_empty, is_fingerprint, is_identifier, is_text, is_null, is_nullable_identifier,
  is_named, or_null,
}

-- The characters of a fingerprint: letters, digits and `+`, `/`, `=`, `_`, `-`.
pub data IsFingerprintChar (c : ℕ) : Type 0 where
  upper : b'A' ≤ c → c ≤ b'Z' → IsFingerprintChar c
  lower : b'a' ≤ c → c ≤ b'z' → IsFingerprintChar c
  digit : b'0' ≤ c → c ≤ b'9' → IsFingerprintChar c
  sign : contains (codes "+/=_-") c ≡ true → IsFingerprintChar c

-- A text `sha256/` with at least one such character behind it, 256 code units at most.
pub record IsFingerprint (s : Str) : Type 0 where
  pub rest : Str
  pub prefixed : s ≡ codes "sha256/" ++ rest
  pub nonempty : rest ≢ []
  pub allowed : All IsFingerprintChar rest
  pub within : length s ≤ 256

-- An identifier, if there is one, is a text of 1 to 256 code units.
abbrev pub IsIdentifier : Option Str → Type 0
IsIdentifier none = Unit
IsIdentifier (some s) = (s ≢ []) × (length s ≤ 256)

pub is_text-inv :
    (p : Str → Bool) (j : Json) → is_text p j ≡ true → (s : Str) × (j ≡ str s) × (p s ≡ true)
is_text-inv p (str s) h = (s, refl, h)
is_text-inv p undefined h = cc
is_text-inv p null h = cc
is_text-inv p (bool b) h = cc
is_text-inv p (num n) h = cc
is_text-inv p (other_num n) h = cc
is_text-inv p (arr xs) h = cc
is_text-inv p (obj fs) h = cc

is_null-inv : (j : Json) → is_null j ≡ true → j ≡ null
is_null-inv j h = ground arith

pub is_named-inv : (name : Str) (j : Json) → is_named name j ≡ true → j ≡ str name
is_named-inv name j h =
    let (s, e, p) = is_text-inv (λ s. s == name) j h in e ∙ ap str ((eq_iff s name).0 p)

pub is_nullable_identifier-inv :
    (j : Json)
    → is_nullable_identifier j ≡ true
    → (o : Option Str) × (j ≡ or_null o) × IsIdentifier o
unfolding is_identifier
is_nullable_identifier-inv j h = elim (Bool-cases (is_null j)) [
  | inl e ↦ (none, is_null-inv j e, tt)
  | inr e ↦
      let (s, j', p) = is_text-inv is_identifier j (rw e at h) in
      (some s, j', (is_identifier-nonempty s p, ground arith))
]
  where
    is_identifier-nonempty : (s : Str) → is_identifier s ≡ true → s ≢ []
    is_identifier-nonempty [] p = cc
    is_identifier-nonempty (c ∷ s) p = λ e. cc

is_print_char-inv : (c : ℕ) → is_print_char c ≡ true → IsFingerprintChar c
unfolding is_alphanumeric is_upper is_lower is_digit
is_print_char-inv c h = elim (Bool-cases (leb b'A' c && leb c b'Z')) [
  | inl e ↦ upper (ground arith) (ground arith)
  | inr e ↦ elim (Bool-cases (leb b'a' c && leb c b'z')) [
    | inl f ↦ lower (ground arith) (ground arith)
    | inr f ↦ elim (Bool-cases (leb b'0' c && leb c b'9')) [
      | inl g ↦ digit (ground arith) (ground arith)
      | inr g ↦ sign (ground arith)
    ]
  ]
]

all_of-inv : (s : Str) → all_of is_print_char s ≡ true → All IsFingerprintChar s
all_of-inv [] h = tt
all_of-inv (c ∷ s) h =
    let a = &&-true (is_print_char c) (all_of is_print_char s) h in
    (is_print_char-inv c a.0, all_of-inv s a.1)

pub is_fingerprint-inv : (s : Str) → is_fingerprint s ≡ true → IsFingerprint s
unfolding is_fingerprint
is_fingerprint-inv s h =
    let p = &&-true (take 7 s == codes "sha256/") _ h in
    let q = &&-true (not (is_empty (drop 7 s))) _ p.1 in
    let w = &&-true (all_of is_print_char (drop 7 s)) (leb (length s) 256) q.1 in
    let name : take 7 s ≡ codes "sha256/" = (eq_iff (take 7 s) (codes "sha256/")).0 p.0 in
    record {
      rest = drop 7 s;
      prefixed = sym (take-append-drop 7 s) ∙ ap (λ x. x ++ drop 7 s) name;
      nonempty = not_empty (drop 7 s) q.0;
      allowed = all_of-inv (drop 7 s) w.0;
      within = ground arith;
    }
  where
    not_empty : (t : Str) → not (is_empty t) ≡ true → t ≢ []
    not_empty [] e = cc
    not_empty (c ∷ t) e = λ x. cc

pub is_session_access-inv :
    (pf : Platform) (j : Json)
    → is_session_access pf j ≡ true
    → (a : Access) × (j ≡ to_json a) × IsNormal pf a
unfolding is_session_access
is_session_access-inv pf (obj fs) h =
    go (normalize_session_access pf (read_access fs)) refl (&&-true (has_access_keys fs) _ h).1
  where
    go :
        (r : Result AccessError Access)
        → normalize_session_access pf (read_access fs) ≡ r
        → is_ok_with (λ a. json_beq (to_json a) (obj fs)) r ≡ true
        → (a : Access) × (obj fs ≡ to_json a) × IsNormal pf a
    go (err x) e k = cc
    go (ok a) e k = (
      a,
      sym (json_beq-eq (to_json a) (obj fs) k),
      normalize_session_access-IsNormal pf (read_access fs) a e,
    )
is_session_access-inv pf undefined h = cc
is_session_access-inv pf null h = cc
is_session_access-inv pf (bool b) h = cc
is_session_access-inv pf (num n) h = cc
is_session_access-inv pf (other_num n) h = cc
is_session_access-inv pf (str s) h = cc
is_session_access-inv pf (arr xs) h = cc
