-- ===== src/Json.antt =====
-- The values that `JSON.parse` returns, and `undefined`. Numbers that are no integer from 0 on are
-- kept apart, since the program refuses them everywhere.
use agent_tab_bridge.Base.{
  ℕ, ◌≡◌, refl, ap, Bool, true, false, ◌&&◌, List, [], ◌∷◌, ◌==◌, nat_eq, list_eq, eq_refl, eq_iff,
  ap₂, &&-true, arith, if◌then◌else◌, ◌+◌,
}
use agent_tab_bridge.Base.Text.{Str}

mutual
  pub data Json : Type 0 where
    undefined : Json
    null : Json
    bool : Bool → Json
    num : ℕ → Json
    other_num : ℕ → Json
    str : Str → Json
    arr : Items → Json
    obj : Fields → Json

  pub data Items : Type 0 where
    nil : Items
    cons : Json → Items → Items

  pub data Fields : Type 0 where
    end : Fields
    field : Str → Json → Fields → Fields

-- The entries of an array.
unfoldable pub to_list : Items → List Json
to_list nil = []
to_list (cons x xs) = x ∷ to_list xs

unfoldable pub from_list : List Json → Items
from_list [] = nil
from_list (x ∷ xs) = cons x (from_list xs)

pub to_list-from_list : (xs : List Json) → to_list (from_list xs) ≡ xs
unfolding to_list from_list
to_list-from_list [] = refl
to_list-from_list (x ∷ xs) = ap (◌∷◌ x) (to_list-from_list xs)

-- `record.key`: `undefined` if there is no such key.
unfoldable pub get : Str → Fields → Json
get k end = undefined
get k (field j v fs) = if j == k then v else get k fs

-- `Object.keys(record).length`.
unfoldable pub key_count : Fields → ℕ
key_count end = 0
key_count (field j v fs) = key_count fs + 1

-- `Object.hasOwn(record, key)`.
unfoldable pub has_own : Str → Fields → Bool
has_own k end = false
has_own k (field j v fs) = if j == k then true else has_own k fs

-- `JSON.stringify(a) === JSON.stringify(b)` for values without `undefined`.
unfoldable mutual
  pub json_beq : Json → Json → Bool
  json_beq undefined undefined = true
  json_beq null null = true
  json_beq (bool true) (bool true) = true
  json_beq (bool false) (bool false) = true
  json_beq (num a) (num b) = a == b
  json_beq (other_num a) (other_num b) = a == b
  json_beq (str a) (str b) = a == b
  json_beq (arr a) (arr b) = items_beq a b
  json_beq (obj a) (obj b) = fields_beq a b
  json_beq _ _ = false

  pub items_beq : Items → Items → Bool
  items_beq nil nil = true
  items_beq (cons x xs) (cons y ys) = json_beq x y && items_beq xs ys
  items_beq _ _ = false

  pub fields_beq : Fields → Fields → Bool
  fields_beq end end = true
  fields_beq (field j x xs) (field k y ys) = j == k && (json_beq x y && fields_beq xs ys)
  fields_beq _ _ = false

mutual
  unfolding json_beq items_beq fields_beq

  json_refl : (x : Json) → json_beq x x ≡ true
  json_refl undefined = refl
  json_refl null = refl
  json_refl (bool true) = refl
  json_refl (bool false) = refl
  json_refl (num a) = eq_refl a
  json_refl (other_num a) = eq_refl a
  json_refl (str a) = eq_refl a
  json_refl (arr a) = items_refl a
  json_refl (obj a) = fields_refl a

  items_refl : (x : Items) → items_beq x x ≡ true
  items_refl nil = refl
  items_refl (cons x xs) = rw (json_refl x) (items_refl xs)

  fields_refl : (x : Fields) → fields_beq x x ≡ true
  fields_refl end = refl
  fields_refl (field j x xs) = rw (eq_refl j, json_refl x) (fields_refl xs)

pub json_beq_self : (x : Json) → json_beq x x ≡ true
json_beq_self x = json_refl x

text_eq : (a b : Str) → (a == b) ≡ true → a ≡ b
text_eq a b h = (eq_iff a b).0 h

mutual
  unfolding json_beq items_beq fields_beq

  json_eq : (x y : Json) → json_beq x y ≡ true → x ≡ y
  json_eq undefined y h = ground arith
  json_eq null y h = ground arith
  json_eq (bool true) y h = ground arith
  json_eq (bool false) y h = ground arith
  json_eq (num a) y h = grind (arith, eq_iff)
  json_eq (other_num a) y h = grind (arith, eq_iff)
  json_eq (str a) y h = grind (arith, text_eq a)
  json_eq (arr a) y h = grind (arith, items_eq a)
  json_eq (obj a) y h = grind (arith, fields_eq a)

  items_eq : (x y : Items) → items_beq x y ≡ true → x ≡ y
  items_eq nil y h = ground arith
  items_eq (cons x xs) nil h = cc
  items_eq (cons x xs) (cons y ys) h =
      let a = &&-true (json_beq x y) (items_beq xs ys) h in
      ap₂ cons (json_eq x y a.0) (items_eq xs ys a.1)

  fields_eq : (x y : Fields) → fields_beq x y ≡ true → x ≡ y
  fields_eq end y h = ground arith
  fields_eq (field j x xs) end h = cc
  fields_eq (field j x xs) (field k y ys) h =
      let a = &&-true (j == k) (json_beq x y && fields_beq xs ys) h in
      let b = &&-true (json_beq x y) (fields_beq xs ys) a.1 in
      let name = (eq_iff j k).0 a.0 in
      let value = json_eq x y b.0 in
      let rest = fields_eq xs ys b.1 in λ i. field (name i) (value i) (rest i)

pub json_beq-eq : (x y : Json) → json_beq x y ≡ true → x ≡ y
json_beq-eq x y h = json_eq x y h
