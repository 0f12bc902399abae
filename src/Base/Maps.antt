-- ===== src/Base/Maps.antt =====
-- A map of the source's language: its entries in the order in which their keys were first set.
use mathlib.Core.Path.{◌≡◌, refl, sym, subst}
use mathlib.Core.Logic.{inl, inr}
use mathlib.Core.Bool.{false}
use mathlib.Core.List.{List, [], ◌∷◌}
use mathlib.Core.Option.{Option, none, some}
use native.Mathlib.Omega.{arith}
use agent_tab_bridge.Base.Tests.{if◌then◌else◌, Bool-cases, if_ind}
use agent_tab_bridge.Base.Keys.{Eq, ◌==◌, eq_iff}

module _ {ℓ κ} {K : Type ℓ} {V : Type κ} ⦃e : Eq K⦄ where
  unfoldable pub lookup : K → List (K × V) → Option V
  lookup key [] = none
  lookup key ((j, v) ∷ entries) = if j == key then some v else lookup key entries

  unfoldable pub insert : K → V → List (K × V) → List (K × V)
  insert key v [] = (key, v) ∷ []
  insert key v ((j, old) ∷ entries) =
      if j == key then (j, v) ∷ entries else (j, old) ∷ insert key v entries

  unfoldable pub delete : K → List (K × V) → List (K × V)
  delete k [] = []
  delete k ((j, w) ∷ m) = let rest = delete k m in if j == k then rest else (j, w) ∷ rest

  pub lookup-insert :
      (key other : K) (v : V) (entries : List (K × V))
      → lookup other (insert key v entries)
        ≡ (if key == other then some v else lookup other entries)
  unfolding insert lookup
  lookup-insert key other v [] = refl
  lookup-insert key other v ((i, old) ∷ rest) =
      ground (lookup-insert key other v rest, eq_iff i other, eq_iff i key, eq_iff key other, arith)

  pub lookup-delete :
      (k j : K) (m : List (K × V)) → lookup j (delete k m) ≡ (if k == j then none else lookup j m)
  unfolding lookup delete
  lookup-delete k j [] = ground arith
  lookup-delete k j ((i, w) ∷ m) =
      ground (lookup-delete k j m, eq_iff i j, eq_iff i k, eq_iff k j, arith)

  -- A property of all entries.
  abbrev pub Every {μ} : (K → V → Type μ) → List (K × V) → Type (ℓ ⊔ κ ⊔ μ)
  Every P m = (k : K) (v : V) → lookup k m ≡ some v → P k v

  pub Every-insert {μ} :
      (P : K → V → Type μ) (k : K) (v : V) (m : List (K × V))
      → Every P m
      → P k v
      → Every P (insert k v m)
  Every-insert P k v m all p j w h = elim (Bool-cases (k == j)) [
    | inl e ↦
        let found : some v ≡ some w = (rw (lookup-insert k j v m, e) at h) in
        let same : v ≡ w = cc found in subst (λ t. P t w) ((eq_iff k j).0 e) (subst (P k) same p)
    | inr e ↦ all j w (rw (lookup-insert k j v m, e) at h)
  ]

  pub Every-delete {μ} :
      (P : K → V → Type μ) (k : K) (m : List (K × V)) → Every P m → Every P (delete k m)
  Every-delete P k m all j w h = elim (Bool-cases (k == j)) [
    | inl e ↦ cc (rw (lookup-delete k j m, e) at h)
    | inr e ↦ all j w (rw (lookup-delete k j m, e) at h)
  ]

  -- A property of every entry of the list, also of one that a lookup does not find.
  abbrev pub Entries {μ} : (K → V → Type μ) → List (K × V) → Type μ
  Entries P [] = Unit
  Entries P ((k, v) ∷ m) = P k v × Entries P m

  pub Entries-insert {μ} :
      (P : K → V → Type μ) (k : K) (v : V) (m : List (K × V))
      → Entries P m
      → P k v
      → Entries P (insert k v m)
  unfolding insert
  Entries-insert P k v [] all p = (p, tt)
  Entries-insert P k v ((j, old) ∷ m) all p =
      if_ind (Entries P) (j == k) (λ e. (subst (λ i. P i v) (sym ((eq_iff j k).0 e)) p, all.1))
        (λ e. (all.0, Entries-insert P k v m all.1 p))

  pub Entries-delete {μ} :
      (P : K → V → Type μ) (k : K) (m : List (K × V)) → Entries P m → Entries P (delete k m)
  unfolding delete
  Entries-delete P k [] all = tt
  Entries-delete P k ((j, v) ∷ m) all =
      if_ind (Entries P) (j == k) (λ e. Entries-delete P k m all.1)
        (λ e. (all.0, Entries-delete P k m all.1))

  pub Entries-lookup {μ} :
      (P : K → V → Type μ) (k : K) (v : V) (m : List (K × V))
      → Entries P m
      → lookup k m ≡ some v
      → P k v
  unfolding lookup
  Entries-lookup P k v [] all h = cc
  Entries-lookup P k v ((j, w) ∷ m) all h = elim (Bool-cases (j == k)) [
    | inl e ↦
        let found : some w ≡ some v = (rw e at h) in
        let same : w ≡ v = cc found in
        subst (P k) same (subst (λ i. P i w) ((eq_iff j k).0 e) all.0)
    | inr e ↦ Entries-lookup P k v m all.1 (rw e at h)
  ]

  -- No key has two entries.
  abbrev pub Distinct : List (K × V) → Type κ
  Distinct [] = Unit
  Distinct ((k, v) ∷ m) = (lookup k m ≡ none) × Distinct m

  insert_keeps_none :
      (k j : K) (v : V) (m : List (K × V))
      → (j == k) ≡ false
      → lookup j m ≡ none
      → lookup j (insert k v m) ≡ none
  insert_keeps_none k j v m e d = ground (lookup-insert k j v m, eq_iff j k, eq_iff k j, arith)

  pub insert-Distinct : (k : K) (v : V) (m : List (K × V)) → Distinct m → Distinct (insert k v m)
  unfolding insert lookup
  insert-Distinct k v [] d = (refl, tt)
  insert-Distinct k v ((j, w) ∷ m) d =
      if_ind Distinct (j == k) (λ e. d)
        (λ e. (insert_keeps_none k j v m e d.0, insert-Distinct k v m d.1))

  delete_keeps_none :
      (k j : K) (m : List (K × V)) → lookup j m ≡ none → lookup j (delete k m) ≡ none
  delete_keeps_none k j m d = ground (lookup-delete k j m, arith)

  pub delete-Distinct : (k : K) (m : List (K × V)) → Distinct m → Distinct (delete k m)
  unfolding delete
  delete-Distinct k [] d = tt
  delete-Distinct k ((j, w) ∷ m) d =
      if_ind Distinct (j == k) (λ e. delete-Distinct k m d.1)
        (λ e. (delete_keeps_none k j m d.0, delete-Distinct k m d.1))
