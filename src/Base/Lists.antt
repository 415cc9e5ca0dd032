-- ===== src/Base/Lists.antt =====
-- Lists over the native numbers, and predicates on lists by recursion.
use Prim.Native.Nat.{ℕ, zero, suc, ◌+◌}
use mathlib.Core.Path.{◌≡◌}
use mathlib.Core.Bool.{Bool, true, false, ◌||◌}
use mathlib.Core.Option.{Option, none, some}
use mathlib.Core.List.{List, [], ◌∷◌, ◌++◌, map}
use native.Mathlib.Omega.{arith}
use mathlib.Core.Option.{some-injective}
use mathlib.Core.Path.{subst}
use mathlib.Core.Logic.{inl, inr}
use spaceport_bazzar_client.Base.Tests.{if◌then◌else◌, Bool-cases}

module _ {ℓ} {A : Type ℓ} where
  abbrev pub length : List A → ℕ
  length [] = 0
  length (x ∷ xs) = suc (length xs)

  -- `[x for x in xs if test(x)]`
  abbrev pub keep_if : (A → Bool) → List A → List A
  keep_if test [] = []
  keep_if test (x ∷ xs) = let rest = keep_if test xs in if test x then x ∷ rest else rest

  -- `next((x for x in xs if test(x)), None)`
  abbrev pub find? : (A → Bool) → List A → Option A
  find? test [] = none
  find? test (x ∷ xs) = let rest = find? test xs in if test x then some x else rest

  -- `any(test(x) for x in xs)`
  abbrev pub any : (A → Bool) → List A → Bool
  any test [] = false
  any test (x ∷ xs) = test x || any test xs

  -- `sum(f(x) for x in xs)`
  abbrev pub sum_by : (A → ℕ) → List A → ℕ
  sum_by f [] = 0
  sum_by f (x ∷ xs) = f x + sum_by f xs

  abbrev pub get_or : List A → ℕ → A → A
  get_or [] i d = d
  get_or (x ∷ xs) zero d = x
  get_or (x ∷ xs) (suc i) d = get_or xs i d

  -- what is left when the first element goes
  abbrev pub drop_first : List A → List A
  drop_first [] = []
  drop_first (x ∷ xs) = xs

  -- `l.sort(key=...)`, which is stable; `before x y` is `key(x) <= key(y)`
  abbrev pub insert_by : (A → A → Bool) → A → List A → List A
  insert_by before x [] = x ∷ []
  insert_by before x (y ∷ ys) =
      let rest = insert_by before x ys in if before x y then x ∷ y ∷ ys else y ∷ rest

  abbrev pub sort_by : (A → A → Bool) → List A → List A
  sort_by before [] = []
  sort_by before (x ∷ xs) = insert_by before x (sort_by before xs)

  -- `max(xs, key=...)` of `best` and the rest: the first of the greatest
  abbrev pub first_max : (A → A → Bool) → A → List A → A
  first_max less best [] = best
  first_max less best (x ∷ xs) = first_max less (if less best x then x else best) xs

  pub length-append : (xs ys : List A) → length (xs ++ ys) ≡ length xs + length ys
  length-append [] ys = omega arith
  length-append (x ∷ xs) ys = omega (arith, length-append xs ys)

abbrev pub All {ℓ κ} : {A : Type ℓ} → (A → Type κ) → List A → Type κ
All P [] = Unit
All P (x ∷ xs) = P x × All P xs

module _ {ℓ κ} {A : Type ℓ} (P : A → Type κ) where
  pub All-append : (xs ys : List A) → All P xs → All P ys → All P (xs ++ ys)
  All-append [] ys hx hy = hy
  All-append (x ∷ xs) ys hx hy = (hx.0, All-append xs ys hx.1 hy)

  pub All-insert_by :
      (before : A → A → Bool) (x : A) (l : List A) → P x → All P l → All P (insert_by before x l)
  All-insert_by before x [] p h = (p, tt)
  All-insert_by before x (y ∷ l) p h = elim (Bool-cases (before x y)) [
    | inl first ↦ rw first (p, h)
    | inr later ↦ rw later (h.0, All-insert_by before x l p h.1)
  ]

  pub All-sort_by : (before : A → A → Bool) (l : List A) → All P l → All P (sort_by before l)
  All-sort_by before [] h = tt
  All-sort_by before (x ∷ l) h =
      All-insert_by before x (sort_by before l) h.0 (All-sort_by before l h.1)

  pub first_max-All :
      (less : A → A → Bool) (best : A) (l : List A) → P best → All P l → P (first_max less best l)
  first_max-All less best [] p h = p
  first_max-All less best (x ∷ l) p h = elim (Bool-cases (less best x)) [
    | inl greater ↦ rw greater (first_max-All less x l h.0 h.1)
    | inr other ↦ rw other (first_max-All less best l p h.1)
  ]

module _ {ℓ} {A : Type ℓ} (test : A → Bool) where
  -- What is found passes the test.
  pub find?-test : (l : List A) (x : A) → find? test l ≡ some x → test x ≡ true
  find?-test [] x e = cc
  find?-test (y ∷ l) x e = ground (arith, find?-test l x)

  pub All-find? {κ} : (P : A → Type κ) (l : List A) (x : A) → All P l → find? test l ≡ some x → P x
  All-find? P [] x h e = absurd (cc)
  All-find? P (y ∷ l) x h e = elim (Bool-cases (test y)) [
    | inl p ↦ subst P (some-injective _ _ (rw p at e)) h.0
    | inr p ↦ All-find? P l x h.1 (rw p at e)
  ]

  pub All-keep_if {κ} : (P : A → Type κ) (l : List A) → All P l → All P (keep_if test l)
  All-keep_if P [] h = tt
  All-keep_if P (y ∷ l) h = elim (Bool-cases (test y)) [
    | inl p ↦ rw p (h.0, All-keep_if P l h.1)
    | inr p ↦ rw p (All-keep_if P l h.1)
  ]

  pub keep_if-test : (l : List A) → All (λ x. test x ≡ true) (keep_if test l)
  keep_if-test [] = tt
  keep_if-test (y ∷ l) = elim (Bool-cases (test y)) [
    | inl p ↦ rw p (p, keep_if-test l)
    | inr p ↦ rw p (keep_if-test l)
  ]

  pub length-keep_if-append :
      (xs ys : List A)
      → length (keep_if test (xs ++ ys)) ≡ length (keep_if test xs) + length (keep_if test ys)
  length-keep_if-append [] ys = omega arith
  length-keep_if-append (x ∷ xs) ys = ground (arith, length-keep_if-append xs ys)

module _ {ℓ κ μ} {A : Type ℓ} (P : A → Type κ) (Q : A → Type μ) where
  pub All-imp : (l : List A) → ((x : A) → P x → Q x) → All P l → All Q l
  All-imp [] f h = tt
  All-imp (x ∷ l) f h = (f x h.0, All-imp l f h.1)

  pub All-map : (g : A → A) (l : List A) → ((x : A) → P x → Q (g x)) → All P l → All Q (map g l)
  All-map g [] f h = tt
  All-map g (x ∷ l) f h = (f x h.0, All-map g l f h.1)

pub All-both {ℓ κ μ ν} :
    {A : Type ℓ} (P : A → Type κ) (Q : A → Type μ) (R : A → Type ν) (l : List A)
    → ((x : A) → P x → Q x → R x)
    → All P l
    → All Q l
    → All R l
All-both P Q R [] f h k = tt
All-both P Q R (x ∷ l) f h k = (f x h.0 k.0, All-both P Q R l f h.1 k.1)
