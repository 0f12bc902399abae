-- ===== src/Access/Order.antt =====
-- `[...new Set(values)].sort(compare)`, for the numbers and for the strings that the source sorts.
use agent_tab_bridge.Base.{
  length, suc, ◌≤◌, ◌++◌, All, ℕ, ◌≡◌, refl, ap₂, ◌∙◌, Bool, true, false, ◌&&◌, ◌||◌, List, [], ◌∷◌,
  ltb, if◌then◌else◌, Eq, nat_eq, list_eq, list_beq, arith, Bool-cases, ◌↔◌, not, inl, inr,
  contains, nat_beq,
}
use agent_tab_bridge.Base.Text.{Str}

-- A strict total order, as a test.
pub record Order {ℓ} (A : Type ℓ) : Type ℓ where
  pub eq : Eq A
  pub less : A → A → Bool
  pub less_trans : (a b c : A) → less a b ≡ true → less b c ≡ true → less a c ≡ true
  pub less_irrefl : (a : A) → less a a ≡ false
  pub less_total : (a b : A) → less a b ≡ false → eq.beq a b ≡ false → less b a ≡ true

pub nat_less_trans : (a b c : ℕ) → ltb a b ≡ true → ltb b c ≡ true → ltb a c ≡ true
nat_less_trans a b c p q = ground arith

pub nat_less_irrefl : (a : ℕ) → ltb a a ≡ false
nat_less_irrefl a = ground arith

pub nat_less_total : (a b : ℕ) → ltb a b ≡ false → nat_beq a b ≡ false → ltb b a ≡ true
nat_less_total a b p q = ground arith

instance abbrev pub nat_order : Order ℕ
nat_order = record {
  eq = nat_eq;
  less = ltb;
  less_trans = nat_less_trans;
  less_irrefl = nat_less_irrefl;
  less_total = nat_less_total;
}

-- Strings are compared by code units.
abbrev pub str_less : Str → Str → Bool
str_less [] [] = false
str_less [] (d ∷ t) = true
str_less (c ∷ s) [] = false
str_less (c ∷ s) (d ∷ t) = ltb c d || (nat_beq c d && str_less s t)

pub str_less_trans : (a b c : Str) → str_less a b ≡ true → str_less b c ≡ true → str_less a c ≡ true
str_less_trans [] [] c p q = cc
str_less_trans [] (y ∷ b) [] p q = cc
str_less_trans [] (y ∷ b) (z ∷ c) p q = refl
str_less_trans (x ∷ a) [] c p q = cc
str_less_trans (x ∷ a) (y ∷ b) [] p q = cc
str_less_trans (x ∷ a) (y ∷ b) (z ∷ c) p q = ground (arith, str_less_trans a b c)

pub str_less_irrefl : (a : Str) → str_less a a ≡ false
str_less_irrefl [] = refl
str_less_irrefl (x ∷ a) = ground (arith, str_less_irrefl a)

pub str_less_total : (a b : Str) → str_less a b ≡ false → list_beq a b ≡ false → str_less b a ≡ true
str_less_total [] [] p q = cc
str_less_total [] (y ∷ b) p q = cc
str_less_total (x ∷ a) [] p q = refl
str_less_total (x ∷ a) (y ∷ b) p q = ground (arith, str_less_total a b)

instance abbrev pub str_order : Order Str
str_order = record {
  eq = list_eq;
  less = str_less;
  less_trans = str_less_trans;
  less_irrefl = str_less_irrefl;
  less_total = str_less_total;
}

module _ {ℓ} {A : Type ℓ} ⦃o : Order A⦄ where
  abbrev pub includes : List A → A → Bool
  includes xs a = contains ⦃e = o.eq⦄ xs a

  abbrev pub same : A → A → Bool
  same a b = o.eq.beq a b

  -- `[...new Set(values)]`: the first of equal values is kept. `seen` holds what was kept.
  unfoldable pub distinct_from : List A → List A → List A
  distinct_from seen [] = []
  distinct_from seen (x ∷ xs) = elim (includes seen x) [
    | true ↦ distinct_from seen xs
    | false ↦ x ∷ distinct_from (x ∷ seen) xs
  ]

  abbrev pub place : A → List A → List A
  place x [] = x ∷ []
  place x (y ∷ ys) = if o.less y x then y ∷ place x ys else x ∷ y ∷ ys

  unfoldable pub sort : List A → List A
  sort [] = []
  sort (x ∷ xs) = place x (sort xs)

  unfoldable pub sort_distinct : List A → List A
  unfolding distinct_from sort
  sort_distinct xs = sort (distinct_from [] xs)

  -- Each entry below the next.
  abbrev pub Below : A → List A → Type 0
  Below x [] = Unit
  Below x (y ∷ ys) = (o.less x y ≡ true) × Below y ys

  abbrev pub Ascending : List A → Type 0
  Ascending [] = Unit
  Ascending (x ∷ xs) = Below x xs

  abbrev Nodup : List A → Type 0
  Nodup [] = Unit
  Nodup (x ∷ xs) = (includes xs x ≡ false) × Nodup xs

  same_iff : (a b : A) → (same a b ≡ true) ↔ (a ≡ b)
  same_iff a b = o.eq.beq_iff a b

  split_old :
      (seen xs : List A) (x a : A)
      → includes seen x ≡ true
      → (includes xs a && not (includes seen a))
        ≡ ((same x a || includes xs a) && not (includes seen a))
  split_old seen xs x a old = elim (Bool-cases (same x a)) [
    | inl e ↦
        let h : includes seen a ≡ true = rw (← (same_iff x a).0 e) old in rw (e, h) (ground arith)
    | inr e ↦ rw e
  ]

  split_new :
      (seen xs : List A) (x a : A)
      → includes seen x ≡ false
      → (same x a || (includes xs a && not (same x a || includes seen a)))
        ≡ ((same x a || includes xs a) && not (includes seen a))
  split_new seen xs x a new = elim (Bool-cases (same x a)) [
    | inl e ↦ let h : includes seen a ≡ false = rw (← (same_iff x a).0 e) new in rw (e, h)
    | inr e ↦ rw e
  ]

  distinct_from-includes :
      (seen xs : List A) (a : A)
      → includes (distinct_from seen xs) a ≡ (includes xs a && not (includes seen a))
  unfolding distinct_from
  distinct_from-includes seen [] a = refl
  distinct_from-includes seen (x ∷ xs) a = elim (Bool-cases (includes seen x)) [
    | inl old ↦
        rw (old, distinct_from) (distinct_from-includes seen xs a ∙ split_old seen xs x a old)
    | inr new ↦
        rw (new, distinct_from)
          (rw (distinct_from-includes (x ∷ seen) xs a) (split_new seen xs x a new))
  ]

  distinct_from-Nodup : (seen xs : List A) → Nodup (distinct_from seen xs)
  unfolding distinct_from
  distinct_from-Nodup seen [] = tt
  distinct_from-Nodup seen (x ∷ xs) = elim (Bool-cases (includes seen x)) [
    | inl old ↦ rw (old, distinct_from) (distinct_from-Nodup seen xs)
    | inr new ↦
        rw (new, distinct_from)
          (
            rw (distinct_from-includes (x ∷ seen) xs x, (same_iff x x).1 refl) (ground arith),
            distinct_from-Nodup (x ∷ seen) xs,
          )
  ]

  place-includes : (x a : A) (ys : List A) → includes (place x ys) a ≡ (same x a || includes ys a)
  place-includes x a [] = refl
  place-includes x a (y ∷ ys) = ground (arith, place-includes x a ys)

  sort-includes : (xs : List A) (a : A) → includes (sort xs) a ≡ includes xs a
  unfolding sort
  sort-includes [] a = refl
  sort-includes (x ∷ xs) a = rw (place-includes x a (sort xs), sort-includes xs a)

  place-Below :
      (y x : A) (ys : List A)
      → o.less y x ≡ true
      → includes ys x ≡ false
      → Below y ys
      → Below y (place x ys)
  place-Below y x [] p f b = (p, tt)
  place-Below y x (z ∷ zs) p f b = ground (arith, place-Below z x zs, o.less_total z x)

  place-Ascending :
      (x : A) (ys : List A) → includes ys x ≡ false → Ascending ys → Ascending (place x ys)
  place-Ascending x [] f b = tt
  place-Ascending x (y ∷ ys) f b = ground (arith, place-Below y x ys, o.less_total y x)

  sort-Ascending : (xs : List A) → Nodup xs → Ascending (sort xs)
  unfolding sort
  sort-Ascending [] h = tt
  sort-Ascending (x ∷ xs) h =
      place-Ascending x (sort xs) (sort-includes xs x ∙ h.0) (sort-Ascending xs h.1)

  pub sort_distinct-Ascending : (xs : List A) → Ascending (sort_distinct xs)
  unfolding sort_distinct
  sort_distinct-Ascending xs = sort-Ascending (distinct_from [] xs) (distinct_from-Nodup [] xs)

  pub sort_distinct-includes : (xs : List A) (a : A) → includes (sort_distinct xs) a ≡ includes xs a
  unfolding sort_distinct
  sort_distinct-includes xs a =
      sort-includes (distinct_from [] xs) a ∙ distinct_from-includes [] xs a ∙ ground arith

  Below-less : (x a : A) (xs : List A) → Below x xs → includes xs a ≡ true → o.less x a ≡ true
  Below-less x a [] b h = cc
  Below-less x a (y ∷ ys) b h = elim (Bool-cases (same y a)) [
    | inl e ↦ rw (← (same_iff y a).0 e) b.0
    | inr e ↦ o.less_trans x y a b.0 (Below-less y a ys b.1 (ground arith))
  ]

  Below-fresh : (x : A) (xs : List A) → Below x xs → includes xs x ≡ false
  Below-fresh x xs b = elim (Bool-cases (includes xs x)) [
    | inl h ↦ ground (arith, Below-less x x xs b h, o.less_irrefl x)
    | inr h ↦ h
  ]

  Ascending-tail : (x : A) (xs : List A) → Below x xs → Ascending xs
  Ascending-tail x [] b = tt
  Ascending-tail x (y ∷ ys) b = b.1

  heads_same :
      (x y : A) (xs ys : List A)
      → Below x xs
      → Below y ys
      → ((a : A) → includes (x ∷ xs) a ≡ includes (y ∷ ys) a)
      → x ≡ y
  heads_same x y xs ys bx by' h = ground (
    arith,
    h x,
    h y,
    same_iff x x,
    same_iff y y,
    same_iff x y,
    same_iff y x,
    Below-less x y xs bx,
    Below-less y x ys by',
    o.less_trans x y x,
    o.less_irrefl x,
  )

  -- Ascending lists with the same entries are one.
  pub Ascending-ext :
      (xs ys : List A)
      → Ascending xs
      → Ascending ys
      → ((a : A) → includes xs a ≡ includes ys a)
      → xs ≡ ys
  Ascending-ext [] [] p q h = refl
  Ascending-ext [] (y ∷ ys) p q h = ground (arith, h y, same_iff y y)
  Ascending-ext (x ∷ xs) [] p q h = ground (arith, h x, same_iff x x)
  Ascending-ext (x ∷ xs) (y ∷ ys) p q h =
      let e : x ≡ y = heads_same x y xs ys p q h in
      let tails : (a : A) → includes xs a ≡ includes ys a =
        λ a. ground (arith, h a, same_iff x a, Below-fresh x xs p, Below-fresh y ys q) in
      ap₂ ◌∷◌ e (Ascending-ext xs ys (Ascending-tail x xs p) (Ascending-tail y ys q) tails)

  -- What is already ascending is left as it is.
  pub sort_distinct_of_Ascending : (xs : List A) → Ascending xs → sort_distinct xs ≡ xs
  sort_distinct_of_Ascending xs p =
      Ascending-ext (sort_distinct xs) xs (sort_distinct-Ascending xs) p (sort_distinct-includes xs)

  distinct_from-length : (seen xs : List A) → length (distinct_from seen xs) ≤ length xs
  unfolding distinct_from
  distinct_from-length seen [] = omega arith
  distinct_from-length seen (x ∷ xs) = elim (Bool-cases (includes seen x)) [
    | inl old ↦ rw (old, distinct_from) (omega (arith, distinct_from-length seen xs))
    | inr new ↦ rw (new, distinct_from) (omega (arith, distinct_from-length (x ∷ seen) xs))
  ]

  place-length : (x : A) (ys : List A) → length (place x ys) ≡ suc (length ys)
  place-length x [] = refl
  place-length x (y ∷ ys) = ground (arith, place-length x ys)

  sort-length : (xs : List A) → length (sort xs) ≡ length xs
  unfolding sort
  sort-length [] = refl
  sort-length (x ∷ xs) = omega (arith, place-length x (sort xs), sort-length xs)

  pub sort_distinct-length : (xs : List A) → length (sort_distinct xs) ≤ length xs
  unfolding sort_distinct
  sort_distinct-length xs =
      omega (arith, sort-length (distinct_from [] xs), distinct_from-length [] xs)

  pub includes-append :
      (xs ys : List A) (a : A) → includes (xs ++ ys) a ≡ (includes xs a || includes ys a)
  includes-append [] ys a = refl
  includes-append (x ∷ xs) ys a = ground (arith, includes-append xs ys a)

  distinct_from-All {κ} :
      (P : A → Type κ) (seen xs : List A) → All P xs → All P (distinct_from seen xs)
  unfolding distinct_from
  distinct_from-All P seen [] h = tt
  distinct_from-All P seen (x ∷ xs) h = elim (Bool-cases (includes seen x)) [
    | inl old ↦ rw (old, distinct_from) (distinct_from-All P seen xs h.1)
    | inr new ↦ rw (new, distinct_from) (h.0, distinct_from-All P (x ∷ seen) xs h.1)
  ]

  place-All {κ} : (P : A → Type κ) (x : A) (ys : List A) → P x → All P ys → All P (place x ys)
  place-All P x [] p h = (p, tt)
  place-All P x (y ∷ ys) p h = elim (Bool-cases (o.less y x)) [
    | inl e ↦ rw (e, place) (h.0, place-All P x ys p h.1)
    | inr e ↦ rw (e, place) (p, h)
  ]

  sort-All {κ} : (P : A → Type κ) (xs : List A) → All P xs → All P (sort xs)
  unfolding sort
  sort-All P [] h = tt
  sort-All P (x ∷ xs) h = place-All P x (sort xs) h.0 (sort-All P xs h.1)

  pub sort_distinct-All {κ} : (P : A → Type κ) (xs : List A) → All P xs → All P (sort_distinct xs)
  unfolding sort_distinct
  sort_distinct-All P xs h = sort-All P (distinct_from [] xs) (distinct_from-All P [] xs h)
