-- ===== src/Access/Domains.antt =====
-- The host names of `normalizeDomain` of src/companion/session-access.ts.
use mathlib.Core.List.{reverse, reverse-reverse, reverse-cons}
use agent_tab_bridge.Base.{
  ℕ, ◌≡◌, refl, sym, ap, ◌∙◌, Bool, true, false, not, ◌&&◌, ◌||◌, Option, none, some, [], ◌∷◌, ◌++◌,
  ltb, ◌==◌, length, nat_eq, list_eq, nat_beq, eq_iff, eq_refl, arith, Bool-cases, inl, inr, subst,
}
use agent_tab_bridge.Base.Text.{Str, all_of, is_lower, is_digit, is_space, trim, trim_start}
use agent_tab_bridge.Base.Results.{ok, >>=-eq-ok, throw_if-eq-ok}
use agent_tab_bridge.Access.Defs.{
  Platform, is_host_char, strip_wildcard, strip_dot, has_char, ends_with, split_from, is_bad_label,
  any_of, or_throw, check_host, normalize_domain, invalid_domain,
}

-- What is asked of the platform: lower-case letters, digits, dots and dashes have no other lower
-- case.
pub record PlatformLaws (pf : Platform) : Type 0 where
  pub lower_host : (s : Str) → all_of is_host_char s ≡ true → pf.to_lower_case s ≡ s

host_char-not_space : (c : ℕ) → is_host_char c ≡ true → is_space c ≡ false
unfolding is_host_char is_lower is_digit is_space
host_char-not_space c h = ground arith

trim_start-host : (s : Str) → all_of is_host_char s ≡ true → trim_start s ≡ s
unfolding trim_start
trim_start-host [] h = refl
trim_start-host (c ∷ s) h = rw (host_char-not_space c (ground arith), trim_start)

all_of-append : (p : ℕ → Bool) (s t : Str) → all_of p (s ++ t) ≡ (all_of p s && all_of p t)
all_of-append p [] t = refl
all_of-append p (c ∷ s) t = ground (arith, all_of-append p s t)

all_of-reverse : (p : ℕ → Bool) (s : Str) → all_of p s ≡ true → all_of p (reverse s) ≡ true
all_of-reverse p [] h = refl
all_of-reverse p (c ∷ s) h =
    rw (reverse-cons c s) (ground (arith, all_of-append p (reverse s) (c ∷ []), all_of-reverse p s))

trim-host : (s : Str) → all_of is_host_char s ≡ true → trim s ≡ s
unfolding trim
trim-host s h =
    rw (trim_start-host s h, trim_start-host (reverse s) (all_of-reverse is_host_char s h))
      (reverse-reverse s)

strip_wildcard-host : (s : Str) → all_of is_host_char s ≡ true → strip_wildcard s ≡ s
unfolding strip_wildcard is_host_char is_lower is_digit
strip_wildcard-host [] h = refl
strip_wildcard-host (c ∷ []) h = refl
strip_wildcard-host (c ∷ d ∷ s) h = ground arith

-- A text that ends in a dot has an empty last label.
ends_with_dot-bad :
    (part s : Str) → ends_with b'.' s ≡ true → any_of is_bad_label (split_from part s) ≡ true
unfolding split_from is_bad_label
ends_with_dot-bad part [] h = cc
ends_with_dot-bad part (c ∷ []) h = rw (h, split_from) (ground arith)
ends_with_dot-bad part (c ∷ d ∷ s) h = elim (Bool-cases (nat_beq c b'.')) [
  | inl e ↦ rw (e, split_from) (ground (arith, ends_with_dot-bad [] (d ∷ s) h))
  | inr e ↦ rw (e, split_from) (ends_with_dot-bad (c ∷ part) (d ∷ s) h)
]

strip_dot-id : (s : Str) → ends_with b'.' s ≡ false → strip_dot s ≡ s
unfolding strip_dot
strip_dot-id [] h = refl
strip_dot-id (c ∷ []) h = rw h
strip_dot-id (c ∷ d ∷ s) h = ap (◌∷◌ c) (strip_dot-id (d ∷ s) h)

-- What an accepted domain is: a host name, of the text that the platform reads as it.
pub record IsDomain (pf : Platform) (d : Str) : Type 0 where
  pub chars : all_of is_host_char d ≡ true
  pub labels : any_of is_bad_label (split_from [] d) ≡ false
  pub shape : (length d == 0 || ltb 253 (length d) || has_char b'/' d || has_char b':' d) ≡ false
  pub host : Str
  pub hosted : pf.host_name d ≡ some host
  pub same_host : strip_dot (pf.to_lower_case host) ≡ d

check_host-inv :
    (raw host d : Str)
    → check_host raw host ≡ ok d
    → (host ≡ d)
      × (host ≡ raw)
      × (all_of is_host_char d ≡ true)
      × (any_of is_bad_label (split_from [] d) ≡ false)
unfolding check_host
check_host-inv raw host d h =
    let bad =
      not (host == raw)
      || not (all_of is_host_char host)
      || any_of is_bad_label (split_from [] host) in
    let (good, e) = throw_if-eq-ok bad invalid_domain (ok host) h in
    let same : host ≡ d = ground arith in
    rw (← same) (refl, (eq_iff host raw).0 (ground arith), ground arith, ground arith)

or_throw-inv : (o : Option Str) {h : Str} → or_throw o invalid_domain ≡ ok h → o ≡ some h
or_throw-inv none e = cc
or_throw-inv (some a) e = cc

-- Every accepted domain is a host name.
pub normalize_domain-IsDomain :
    (pf : Platform) (value d : Str) → normalize_domain pf value ≡ ok d → IsDomain pf d
unfolding normalize_domain
normalize_domain-IsDomain pf value d h =
    let raw = strip_dot (strip_wildcard (pf.to_lower_case (trim value))) in
    let (fits, h1) = throw_if-eq-ok _ invalid_domain _ h in
    let (host, found, h2) = >>=-eq-ok (or_throw (pf.host_name raw) invalid_domain) _ h1 in
    let (e, r, cs, ls) = check_host-inv raw (strip_dot (pf.to_lower_case host)) d h2 in
    let same : raw ≡ d = sym r ∙ e in
    record {
      chars = cs;
      labels = ls;
      shape =
          subst
            (λ t.
              (length t == 0 || ltb 253 (length t) || has_char b'/' t || has_char b':' t) ≡ false)
            same fits;
      host = host;
      hosted = subst (λ t. pf.host_name t ≡ some host) same (or_throw-inv (pf.host_name raw) found);
      same_host = e;
    }

not_bad_end : (d : Str) → any_of is_bad_label (split_from [] d) ≡ false → ends_with b'.' d ≡ false
not_bad_end d h = elim (Bool-cases (ends_with b'.' d)) [
  | inl e ↦ ground (arith, ends_with_dot-bad [] d e)
  | inr e ↦ e
]

-- A host name is left as it is.
pub normalize_domain_of_IsDomain :
    (pf : Platform) (d : Str) → PlatformLaws pf → IsDomain pf d → normalize_domain pf d ≡ ok d
unfolding normalize_domain check_host
normalize_domain_of_IsDomain pf d laws v =
    let raw : strip_dot (strip_wildcard (pf.to_lower_case (trim d))) ≡ d = rw (
      trim-host d v.chars,
      laws.lower_host d v.chars,
      strip_wildcard-host d v.chars,
      strip_dot-id d (not_bad_end d v.labels),
    ) in
    rw (raw, v.shape, v.hosted, v.same_host, eq_refl d, v.chars, v.labels)

-- A domain that was accepted is accepted again, unchanged.
pub normalize_domain_idem :
    (pf : Platform) (value d : Str)
    → PlatformLaws pf
    → normalize_domain pf value ≡ ok d
    → normalize_domain pf d ≡ ok d
normalize_domain_idem pf value d laws h =
    normalize_domain_of_IsDomain pf d laws (normalize_domain-IsDomain pf value d h)
