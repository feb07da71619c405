-- ===== src/Common/Bytes.antt =====
-- Slices of bytes, and big-endian numbers.
use Prim.Native.Nat.{ℕ, zero, suc, ◌+◌, ◌-◌, ◌*◌, ◌/◌, ◌%◌, ◌^◌, ◌≤◌, ◌<◌}
use mathlib.Core.Path.{◌≡◌, refl, sym, ap, ◌∙◌}
use mathlib.Core.List.{List, [], ◌∷◌, ◌++◌}
use native.Mathlib.Omega.{arith}
use agent_mesh.Common.Lists.{length}

sum_suc : (m n : ℕ) → suc m + n ≡ suc (m + n)
sum_suc m n = omega arith

module _ {ℓ} {A : Type ℓ} where
  unfoldable pub take : ℕ → List A → List A
  take zero xs = []
  take (suc n) [] = []
  take (suc n) (x ∷ xs) = x ∷ take n xs

  unfoldable pub drop : ℕ → List A → List A
  drop zero xs = xs
  drop (suc n) [] = []
  drop (suc n) (x ∷ xs) = drop n xs

  pub take-append : (xs ys : List A) (n : ℕ) → length xs ≡ n → take n (xs ++ ys) ≡ xs
  unfolding take
  take-append [] ys zero h = refl
  take-append [] ys (suc n) h = absurd (ground arith)
  take-append (x ∷ xs) ys zero h = absurd (ground arith)
  take-append (x ∷ xs) ys (suc n) h = ap (λ t. x ∷ t) (take-append xs ys n (ground arith))

  pub drop-append : (xs ys : List A) (n : ℕ) → length xs ≡ n → drop n (xs ++ ys) ≡ ys
  unfolding drop
  drop-append [] ys zero h = refl
  drop-append [] ys (suc n) h = absurd (ground arith)
  drop-append (x ∷ xs) ys zero h = absurd (ground arith)
  drop-append (x ∷ xs) ys (suc n) h = drop-append xs ys n (ground arith)

  -- A prefix that is no longer than the first part is a prefix of it.
  pub take-append_first : (xs ys : List A) (n : ℕ) → n ≤ length xs → take n (xs ++ ys) ≡ take n xs
  unfolding take
  take-append_first xs ys zero h = refl
  take-append_first [] ys (suc n) h = absurd (ground arith)
  take-append_first (x ∷ xs) ys (suc n) h =
      ap (λ t. x ∷ t) (take-append_first xs ys n (ground arith))

  -- A longer one is the first part and a prefix of the second.
  pub take-append_second :
      (xs ys : List A) (n : ℕ) → take (length xs + n) (xs ++ ys) ≡ xs ++ take n ys
  unfolding take
  take-append_second [] ys n = ap (λ m. take m ys) (omega arith)
  take-append_second (x ∷ xs) ys n =
      ap (λ k. take k (x ∷ (xs ++ ys))) (sum_suc (length xs) n)
      ∙ ap (λ t. x ∷ t) (take-append_second xs ys n)

  pub take_all : (xs : List A) (n : ℕ) → length xs ≤ n → take n xs ≡ xs
  unfolding take
  take_all [] zero h = refl
  take_all [] (suc n) h = refl
  take_all (x ∷ xs) zero h = absurd (ground arith)
  take_all (x ∷ xs) (suc n) h = ap (λ t. x ∷ t) (take_all xs n (ground arith))

  pub drop_all : (xs : List A) (n : ℕ) → length xs ≤ n → drop n xs ≡ []
  unfolding drop
  drop_all [] zero h = refl
  drop_all [] (suc n) h = refl
  drop_all (x ∷ xs) zero h = absurd (ground arith)
  drop_all (x ∷ xs) (suc n) h = drop_all xs n (ground arith)

  pub drop-drop : (xs : List A) (m n : ℕ) → drop (m + n) xs ≡ drop n (drop m xs)
  unfolding drop
  drop-drop xs zero n = ap (λ m. drop m xs) (omega arith)
  drop-drop [] (suc m) n = drop_all [] (suc m + n) (omega arith) ∙ sym (drop_all [] n (omega arith))
  drop-drop (x ∷ xs) (suc m) n = ap (λ k. drop k (x ∷ xs)) (sum_suc m n) ∙ drop-drop xs m n

  pub length-take : (xs : List A) (n : ℕ) → n ≤ length xs → length (take n xs) ≡ n
  unfolding take
  length-take xs zero h = refl
  length-take [] (suc n) h = absurd (ground arith)
  length-take (x ∷ xs) (suc n) h = ground (arith, length-take xs n)

  pub length-drop : (xs : List A) (n : ℕ) → length (drop n xs) ≡ length xs - n
  unfolding drop
  length-drop xs zero = ground arith
  length-drop [] (suc n) = ground arith
  length-drop (x ∷ xs) (suc n) = ground (arith, length-drop xs n)

  pub take-drop : (xs : List A) (n : ℕ) → take n xs ++ drop n xs ≡ xs
  unfolding take drop
  take-drop xs zero = refl
  take-drop [] (suc n) = refl
  take-drop (x ∷ xs) (suc n) = ap (λ t. x ∷ t) (take-drop xs n)

-- `to_be_bytes` of a number of that many bytes.
unfoldable pub be_bytes : ℕ → ℕ → List ℕ
be_bytes zero n = []
be_bytes (suc count) n = (n / 256 ^ count % 256) ∷ be_bytes count n

-- `from_be_bytes`.
unfoldable pub from_be_bytes : List ℕ → ℕ
from_be_bytes [] = 0
from_be_bytes (b ∷ bs) = b * 256 ^ length bs + from_be_bytes bs

pub length-be_bytes : (count n : ℕ) → length (be_bytes count n) ≡ count
unfolding be_bytes
length-be_bytes zero n = refl
length-be_bytes (suc count) n = ground (arith, length-be_bytes count n)

-- Four big-endian bytes hold a number below 2^32.
pub from_be_bytes-be_bytes : (n : ℕ) → n < 4294967296 → from_be_bytes (be_bytes 4 n) ≡ n
unfolding be_bytes from_be_bytes
from_be_bytes-be_bytes n h = omega arith
