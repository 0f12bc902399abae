-- ===== src/Base/Bytes.antt =====
-- Fixed-width numbers as bytes, most significant first, and least significant first.
use Prim.Native.Nat.{ℕ, zero, suc, ◌+◌, ◌*◌, ◌/◌, ◌%◌, ◌<◌}
use mathlib.Core.Path.{◌≡◌, refl}
use mathlib.Core.List.{List, [], ◌∷◌, ◌++◌}
use native.Mathlib.Omega.{arith}
use agent_tab_bridge.Base.Lists.{length, length-append}

-- The `k` low bytes of `n`, the lowest first.
unfoldable pub write_le : ℕ → ℕ → List ℕ
write_le zero n = []
write_le (suc k) n = n % 256 ∷ write_le k (n / 256)

unfoldable pub read_le : List ℕ → ℕ
read_le [] = 0
read_le (b ∷ bs) = b + 256 * read_le bs

unfoldable pub write_be : ℕ → ℕ → List ℕ
write_be zero n = []
write_be (suc k) n = write_be k (n / 256) ++ (n % 256) ∷ []

abbrev read_be_from : ℕ → List ℕ → ℕ
read_be_from acc [] = acc
read_be_from acc (b ∷ bs) = read_be_from (acc * 256 + b) bs

unfoldable pub read_be : List ℕ → ℕ
read_be bs = read_be_from 0 bs

pub length-write_le : (k n : ℕ) → length (write_le k n) ≡ k
unfolding write_le
length-write_le zero n = refl
length-write_le (suc k) n = omega (arith, length-write_le k (n / 256))

pub length-write_be : (k n : ℕ) → length (write_be k n) ≡ k
unfolding write_be
length-write_be zero n = refl
length-write_be (suc k) n =
    omega
      (arith, length-write_be k (n / 256), length-append {0} (write_be k (n / 256)) (n % 256 ∷ []))

abbrev pub capacity : ℕ → ℕ
capacity zero = 1
capacity (suc k) = 256 * capacity k

pub read_le-write_le : (k n : ℕ) → n < capacity k → read_le (write_le k n) ≡ n
unfolding read_le write_le
read_le-write_le zero n h = omega arith
read_le-write_le (suc k) n h = omega (arith, read_le-write_le k (n / 256) (omega arith))

read_be_from-append :
    (acc : ℕ) (xs : List ℕ) (b : ℕ)
    → read_be_from acc (xs ++ b ∷ []) ≡ read_be_from acc xs * 256 + b
read_be_from-append acc [] b = refl
read_be_from-append acc (x ∷ xs) b = read_be_from-append (acc * 256 + x) xs b

pub read_be-write_be : (k n : ℕ) → n < capacity k → read_be (write_be k n) ≡ n
unfolding read_be write_be
read_be-write_be zero n h = omega arith
read_be-write_be (suc k) n h = omega (
  arith,
  read_be_from-append 0 (write_be k (n / 256)) (n % 256),
  read_be-write_be k (n / 256) (omega arith),
)
