-- ===== src/Common/Sets.antt =====
-- `BTreeSet`: a list of elements, of which the program reads membership only. Two sets are equal
-- (`==` of the source) when each holds the elements of the other.
use mathlib.Core.Path.{◌≡◌, refl}
use mathlib.Core.Bool.{Bool, true, false, not, ◌&&◌, ◌||◌}
use mathlib.Core.List.{List, [], ◌∷◌, ◌++◌}
use native.Mathlib.Omega.{arith}
use agent_mesh.Common.Tests.{if◌then◌else◌, Bool-ext}
use agent_mesh.Common.Classes.{Eq, beq_refl}
use agent_mesh.Common.Lists.{all, filter}

module _ {ℓ} {A : Type ℓ} ⦃e : Eq A⦄ where
  unfoldable pub contains : List A → A → Bool
  contains [] a = false
  contains (x ∷ xs) a = e.beq x a || contains xs a

  unfoldable pub is_subset : List A → List A → Bool
  is_subset xs ys = all (contains ys) xs

  unfoldable pub intersection : List A → List A → List A
  intersection xs ys = filter (contains ys) xs

  unfoldable pub union : List A → List A → List A
  union xs ys = xs ++ filter (λ y. not (contains xs y)) ys

  unfoldable pub set_eq : List A → List A → Bool
  set_eq xs ys = is_subset xs ys && is_subset ys xs

  unfoldable pub insert : A → List A → List A
  insert a xs = if contains xs a then xs else a ∷ xs

  -- Every element once: `seen.insert(x)` is true for each in turn.
  unfoldable pub distinct : List A → Bool
  distinct [] = true
  distinct (x ∷ xs) = not (contains xs x) && distinct xs

  pub contains-filter :
      (p : A → Bool) (xs : List A) (a : A) → contains (filter p xs) a ≡ (contains xs a && p a)
  unfolding contains filter
  contains-filter p [] a = refl
  contains-filter p (x ∷ xs) a = ground (arith, contains-filter p xs a, e.beq_iff x a)

  pub contains-append :
      (xs ys : List A) (a : A) → contains (xs ++ ys) a ≡ (contains xs a || contains ys a)
  unfolding contains
  contains-append [] ys a = refl
  contains-append (x ∷ xs) ys a = ground (arith, contains-append xs ys a)

  pub contains-intersection :
      (xs ys : List A) (a : A) → contains (intersection xs ys) a ≡ (contains xs a && contains ys a)
  unfolding intersection
  contains-intersection xs ys a = contains-filter (contains ys) xs a

  pub contains-union :
      (xs ys : List A) (a : A) → contains (union xs ys) a ≡ (contains xs a || contains ys a)
  unfolding union
  contains-union xs ys a = ground (
    arith,
    contains-append xs (filter (λ y. not (contains xs y)) ys) a,
    contains-filter (λ y. not (contains xs y)) ys a,
  )

  pub contains-insert :
      (x : A) (xs : List A) (a : A) → contains (insert x xs) a ≡ (e.beq x a || contains xs a)
  unfolding insert contains
  contains-insert x xs a = ground (arith, e.beq_iff x a)

  pub all-contains :
      (p : A → Bool) (xs : List A) (a : A) → all p xs ≡ true → contains xs a ≡ true → p a ≡ true
  unfolding all contains
  all-contains p [] a h m = ground arith
  all-contains p (x ∷ xs) a h m = ground (arith, e.beq_iff x a, all-contains p xs a)

  pub all_intro :
      (p : A → Bool) (xs : List A) → ((a : A) → contains xs a ≡ true → p a ≡ true) → all p xs ≡ true
  unfolding all contains
  all_intro p [] f = refl
  all_intro p (x ∷ xs) f =
      ground (arith, f x, beq_refl x, all_intro p xs (λ a m. f a (ground arith)))

  -- `is_subset` is inclusion.
  pub is_subset_elim :
      (xs ys : List A) (a : A)
      → is_subset xs ys ≡ true
      → contains xs a ≡ true
      → contains ys a ≡ true
  unfolding is_subset
  is_subset_elim xs ys a h m = all-contains (contains ys) xs a h m

  pub is_subset_intro :
      (xs ys : List A)
      → ((a : A) → contains xs a ≡ true → contains ys a ≡ true)
      → is_subset xs ys ≡ true
  unfolding is_subset
  is_subset_intro xs ys f = all_intro (contains ys) xs f

  pub is_subset_refl : (xs : List A) → is_subset xs xs ≡ true
  is_subset_refl xs = is_subset_intro xs xs (λ a m. m)

  pub is_subset_trans :
      (xs ys zs : List A) → is_subset xs ys ≡ true → is_subset ys zs ≡ true → is_subset xs zs ≡ true
  is_subset_trans xs ys zs h k =
      is_subset_intro xs zs (λ a m. is_subset_elim ys zs a k (is_subset_elim xs ys a h m))

  -- The greatest lower bound among sets.
  pub is_subset-intersection :
      (xs ys zs : List A) → is_subset xs (intersection ys zs) ≡ (is_subset xs ys && is_subset xs zs)
  unfolding is_subset all
  is_subset-intersection [] ys zs = refl
  is_subset-intersection (x ∷ xs) ys zs =
      ground (arith, is_subset-intersection xs ys zs, contains-intersection ys zs x)

  -- Equal sets hold the same elements.
  pub set_eq_elim : (xs ys : List A) (a : A) → set_eq xs ys ≡ true → contains xs a ≡ contains ys a
  unfolding set_eq
  set_eq_elim xs ys a h =
      Bool-ext (contains xs a) (contains ys a) (λ m. is_subset_elim xs ys a (ground arith) m)
        (λ m. is_subset_elim ys xs a (ground arith) m)

  pub set_eq_refl : (xs : List A) → set_eq xs xs ≡ true
  unfolding set_eq
  set_eq_refl xs = ground (arith, is_subset_refl xs)

  pub contains-single : (n x : A) → contains (n ∷ []) x ≡ e.beq n x
  unfolding contains
  contains-single n x = ground arith

  -- A list with no repeats stays so when an element that it lacks is pushed.
  pub distinct-concat :
      (xs : List A) (n : A)
      → distinct xs ≡ true
      → contains xs n ≡ false
      → distinct (xs ++ n ∷ []) ≡ true
  unfolding distinct contains
  distinct-concat [] n d f = refl
  distinct-concat (x ∷ xs) n d f = ground (
    arith,
    distinct-concat xs n,
    contains-append xs (n ∷ []) x,
    contains-single n x,
    e.beq_iff n x,
    e.beq_iff x n,
  )
