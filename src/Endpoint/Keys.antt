-- ===== src/Endpoint/Keys.antt =====
-- How the number of the keys of an object depends on which keys it has and may have.
use agent_tab_bridge.Base.{
  ◌+◌, ◌≤◌, ◌≡◌, refl, ap, ◌∙◌, Bool, true, false, not, ◌&&◌, &&-true, inl, inr, Bool-cases, List,
  [], ◌∷◌, ◌==◌, eq_iff, eq_refl, ◌≢◌, contains, if◌then◌else◌, length, nat_eq, list_eq, arith,
  true_false, sym, subst,
}
use agent_tab_bridge.Base.Text.{Str}
use agent_tab_bridge.Json.{undefined, Fields, end, field, get, key_count, has_own}
use agent_tab_bridge.Endpoint.Provenance.{has_all}

-- The fields without the first of that name.
abbrev without : Str → Fields → Fields
without k end = end
without k (field j v fs) = if j == k then fs else field j v (without k fs)

key_count-without :
    (k : Str) (fs : Fields) → has_own k fs ≡ true → key_count (without k fs) + 1 ≡ key_count fs
unfolding key_count has_own
key_count-without k end h = cc
key_count-without k (field j v fs) h = elim (Bool-cases (j == k)) [
  | inl e ↦ rw e refl
  | inr e ↦ rw e (ap (λ n. n + 1) (key_count-without k fs (rw e at h)))
]

has_own-without :
    (k i : Str) (fs : Fields)
    → (k == i) ≡ false
    → has_own i fs ≡ true
    → has_own i (without k fs) ≡ true
unfolding has_own
has_own-without k i end n h = cc
has_own-without k i (field j v fs) n h = elim (Bool-cases (j == k)) [
  | inl e ↦
      let other : (j == i) ≡ false = ap (λ x. x == i) ((eq_iff j k).0 e) ∙ n in rw e (rw other at h)
  | inr e ↦ elim (Bool-cases (j == i)) [
    | inl f ↦ rw (e, f) refl
    | inr f ↦ rw (e, f) (has_own-without k i fs n (rw f at h))
  ]
]

has_all-without :
    (k : Str) (ks : List Str) (fs : Fields)
    → contains ks k ≡ false
    → has_all ks fs ≡ true
    → has_all ks (without k fs) ≡ true
has_all-without k [] fs n h = refl
has_all-without k (i ∷ ks) fs n h =
    let a = &&-true (has_own i fs) (has_all ks fs) h in
    let first = has_own-without k i fs (ground (arith, eq_iff i k, eq_iff k i)) a.0 in
    let rest = has_all-without k ks fs (ground arith) a.1 in rw (first, rest) refl

abbrev pub distinct : List Str → Bool
distinct [] = true
distinct (k ∷ ks) = not (contains ks k) && distinct ks

-- An object that has distinct keys has at least as many keys.
pub length-key_count :
    (ks : List Str) (fs : Fields)
    → distinct ks ≡ true
    → has_all ks fs ≡ true
    → length ks ≤ key_count fs
length-key_count [] fs d h = omega arith
length-key_count (k ∷ ks) fs d h =
    let a = &&-true (has_own k fs) (has_all ks fs) h in
    let n : contains ks k ≡ false = ground arith in
    let r : distinct ks ≡ true = ground arith in
    let ih = length-key_count ks (without k fs) r (has_all-without k ks fs n a.1) in
    omega (arith, ih, key_count-without k fs a.0)

-- The keys without the first of that name.
abbrev dropped : Str → List Str → List Str
dropped k [] = []
dropped k (i ∷ ks) = if i == k then ks else i ∷ dropped k ks

length-dropped :
    (k : Str) (ks : List Str) → contains ks k ≡ true → length (dropped k ks) + 1 ≡ length ks
length-dropped k [] h = cc
length-dropped k (i ∷ ks) h = elim (Bool-cases (i == k)) [
  | inl e ↦ rw e (omega arith)
  | inr e ↦ let ih = length-dropped k ks (rw e at h) in rw e (omega (arith, ih))
]

contains-dropped :
    (k j : Str) (ks : List Str)
    → (k == j) ≡ false
    → contains ks j ≡ true
    → contains (dropped k ks) j ≡ true
contains-dropped k j [] n h = cc
contains-dropped k j (i ∷ ks) n h = elim (Bool-cases (i == k)) [
  | inl e ↦
      let other : (i == j) ≡ false = ap (λ x. x == j) ((eq_iff i k).0 e) ∙ n in rw e (rw other at h)
  | inr e ↦ elim (Bool-cases (i == j)) [
    | inl f ↦ rw (e, f) refl
    | inr f ↦ rw (e, f) (contains-dropped k j ks n (rw f at h))
  ]
]

-- No key stands twice, as in every object.
abbrev pub Unique : Fields → Type 0
Unique end = Unit
Unique (field k v fs) = (has_own k fs ≡ false) × Unique fs

-- An object whose keys are all of a list has at most as many keys.
pub key_count-length :
    (fs : Fields) (ks : List Str)
    → Unique fs
    → ((k : Str) → has_own k fs ≡ true → contains ks k ≡ true)
    → key_count fs ≤ length ks
unfolding key_count has_own
key_count-length end ks u all = omega arith
key_count-length (field k v fs) ks u all =
    let ih = key_count-length fs (dropped k ks) u.1 later in
    omega (arith, ih, length-dropped k ks (all k (rw (eq_refl k) refl)))
  where
    other : (j : Str) → has_own j fs ≡ true → (k == j) ≡ false
    other j h = elim (Bool-cases (k == j)) [
      | inl e ↦ true_false (subst (λ x. has_own x fs ≡ true) (sym ((eq_iff k j).0 e)) h) u.0
      | inr e ↦ e
    ]

    later : (j : Str) → has_own j fs ≡ true → contains (dropped k ks) j ≡ true
    later j h = contains-dropped k j ks (other j h) (all j (rw (other j h) h))

-- A key with a value other than `undefined` is there.
pub has_own-get : (k : Str) (fs : Fields) → get k fs ≢ undefined → has_own k fs ≡ true
unfolding get has_own
has_own-get k end n = elim (n refl) [ ]
has_own-get k (field j v fs) n = elim (Bool-cases (j == k)) [
  | inl e ↦ rw e refl
  | inr e ↦ rw e (has_own-get k fs (rw e at n))
]
