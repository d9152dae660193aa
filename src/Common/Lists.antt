-- ===== src/Common/Lists.antt =====
-- Lists measured by native numbers, Boolean filters and membership of texts, and a predicate on
-- all items.
use Prim.Native.Nat.{ℕ, zero, suc, ◌+◌, ◌≤◌}
use Prim.Native.String.{String}
use mathlib.Core.Path.{◌≡◌, refl, sym, subst}
use mathlib.Core.Logic.{◌↔◌}
use mathlib.Core.Bool.{Bool, true, false, ◌||◌, ◌&&◌}
use mathlib.Core.Option.{Option, none, some}
use mathlib.Core.List.{List, [], ◌∷◌, ◌++◌, map, Memᴰ}
use native.Mathlib.Omega.{arith}
use text.Mathlib.Text.{◌==◌}
use overload_party_scenario.Common.Tests.{eqb, if◌then◌else◌}

module _ {ℓ} {A : Type ℓ} where
  abbrev pub length : List A → ℕ
  length [] = 0
  length (x ∷ xs) = suc (length xs)

  pub length-append : (xs ys : List A) → length (xs ++ ys) ≡ length xs + length ys
  length-append [] ys = omega arith
  length-append (x ∷ xs) ys = omega (arith, length-append xs ys)

  -- The items that pass a Boolean test, in their order.
  abbrev pub filter : (A → Bool) → List A → List A
  filter p [] = []
  filter p (x ∷ xs) = let rest = filter p xs in if p x then x ∷ rest else rest

  abbrev pub find? : (A → Bool) → List A → Option A
  find? p [] = none
  find? p (x ∷ xs) = let rest = find? p xs in if p x then some x else rest

  abbrev pub any : (A → Bool) → List A → Bool
  any p [] = false
  any p (x ∷ xs) = p x || any p xs

  abbrev pub all : (A → Bool) → List A → Bool
  all p [] = true
  all p (x ∷ xs) = p x && all p xs

  abbrev pub take : ℕ → List A → List A
  take zero xs = []
  take (suc n) [] = []
  take (suc n) (x ∷ xs) = x ∷ take n xs

  pub length-take-le : (n : ℕ) (xs : List A) → length (take n xs) ≤ n
  length-take-le zero xs = omega arith
  length-take-le (suc n) [] = omega arith
  length-take-le (suc n) (x ∷ xs) = omega (arith, length-take-le n xs)

module _ {ℓ} {A : Type ℓ} (p : A → Bool) where
  -- How many items pass a test.
  abbrev pub count_if : List A → ℕ
  count_if [] = 0
  count_if (x ∷ xs) = (if p x then 1 else 0) + count_if xs

  pub count_if-append : (xs ys : List A) → count_if (xs ++ ys) ≡ count_if xs + count_if ys
  count_if-append [] ys = omega arith
  count_if-append (x ∷ xs) ys = omega (arith, count_if-append xs ys)

  pub count_if-eq_zero : (xs : List A) → any p xs ≡ false → count_if xs ≡ 0
  count_if-eq_zero [] h = refl
  count_if-eq_zero (x ∷ xs) h = ground (arith, count_if-eq_zero xs)

  pub any_of_count_if : (xs : List A) → any p xs ≡ true → 1 ≤ count_if xs
  any_of_count_if [] h = cc
  any_of_count_if (x ∷ xs) h = ground (arith, any_of_count_if xs)

module _ {ℓ κ} {A : Type ℓ} {B : Type κ} where
  pub count_if-map :
      (p : B → Bool) (f : A → B) (xs : List A) → count_if p (map f xs) ≡ count_if (λ x. p (f x)) xs
  count_if-map p f [] = refl
  count_if-map p f (x ∷ xs) = omega (arith, count_if-map p f xs)

module _ {ℓ} {A : Type ℓ} where
  pub count_if-filter :
      (p q : A → Bool) (xs : List A) → count_if p (filter q xs) ≡ count_if (λ x. q x && p x) xs
  count_if-filter p q [] = refl
  count_if-filter p q (x ∷ xs) = ground (arith, count_if-filter p q xs)

module _ {ℓ} {A : Type ℓ} (le : A → A → Bool) where
  abbrev pub Precedes : A → List A → Type 0
  Precedes x [] = Unit
  Precedes x (y ∷ ys) = le x y ≡ true

  -- Each item is at most the next one.
  abbrev pub Ordered : List A → Type 0
  Ordered [] = Unit
  Ordered (x ∷ xs) = Precedes x xs × Ordered xs

pub length-eq-zero {ℓ} : {A : Type ℓ} (xs : List A) → (eqb (length xs) 0 ≡ true) ↔ (xs ≡ [])
length-eq-zero [] = (λ h. refl, λ h. refl)
length-eq-zero (x ∷ xs) = (λ h. ground arith, λ h. cc)

module _ {ℓ κ} {A : Type ℓ} (P : A → Type κ) where
  -- Every item has the property; it computes to a tuple.
  abbrev pub All : List A → Type κ
  All [] = Unit
  All (x ∷ xs) = P x × All xs

  pub All-append : (xs ys : List A) → All xs → All ys → All (xs ++ ys)
  All-append [] ys hx hy = hy
  All-append (x ∷ xs) ys hx hy = (hx.0, All-append xs ys hx.1 hy)

  pub All-lookup : {a : A} {xs : List A} → Memᴰ a xs → All xs → P a
  All-lookup (Memᴰ.head e) h = subst P (sym e) h.0
  All-lookup (Memᴰ.tail m) h = All-lookup m h.1

-- Whether a text is in a list of texts.
abbrev pub contains : List String → String → Bool
contains [] a = false
contains (x ∷ xs) a = x == a || contains xs a

module _ {ℓ κ} {A : Type ℓ} (P : A → Type κ) where
  pub All-filter : (p : A → Bool) (xs : List A) → All P xs → All P (filter p xs)
  All-filter p [] h = tt
  All-filter p (x ∷ xs) h =
      elim (p x) as (λ b. All P (if b then x ∷ filter p xs else filter p xs)) [
        | true ↦ (h.0, All-filter p xs h.1)
        | false ↦ All-filter p xs h.1
      ]

  pub All-take : (n : ℕ) (xs : List A) → All P xs → All P (take n xs)
  All-take zero xs h = tt
  All-take (suc n) [] h = tt
  All-take (suc n) (x ∷ xs) h = (h.0, All-take n xs h.1)

module _ {ℓ κ} {A : Type ℓ} {P : A → Type κ} where
  -- A write to the items that pass a test keeps what holds of all, if the write does.
  pub All-update {μ} :
      {Q : A → Type μ} (p : A → Bool) (f : A → A)
      → ((a : A) → p a ≡ true → Q a → P a → P (f a))
      → (xs : List A) → All Q xs
      → All P xs
      → All P (map (λ x. if p x then f x else x) xs)
  All-update p f k [] q h = tt
  All-update p f k (x ∷ xs) q h =
      (update_one (p x) (λ e. k x e q.0 h.0), All-update p f k xs q.1 h.1)
    where
      update_one : (b : Bool) → (b ≡ true → P (f x)) → P (if b then f x else x)
      update_one true t = t refl
      update_one false t = h.0

pub All-map {ℓ κ μ} :
    {A : Type ℓ} {P : A → Type κ} {Q : A → Type μ}
    → ((a : A) → P a → Q a)
    → (xs : List A) → All P xs
    → All Q xs
All-map f [] h = tt
All-map f (x ∷ xs) h = (f x h.0, All-map f xs h.1)

pub All-of-map {ℓ κ μ} :
    {A : Type ℓ} {B : Type μ} (P : B → Type κ) (f : A → B) (xs : List A)
    → All P (map f xs) ↔ All (λ a. P (f a)) xs
All-of-map P f [] = (λ h. tt, λ h. tt)
All-of-map P f (x ∷ xs) =
    (λ h. (h.0, (All-of-map P f xs).0 h.1), λ h. (h.0, (All-of-map P f xs).1 h.1))

pub All_trivial {ℓ} : {A : Type ℓ} (xs : List A) → All (λ a. Unit {0}) xs
All_trivial [] = tt
All_trivial (x ∷ xs) = (tt, All_trivial xs)
