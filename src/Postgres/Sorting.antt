-- ===== src/Postgres/Sorting.antt =====
-- ORDER BY keeps the rows, and brings them into order.
use overload_party_scenario.Common.{
  ◌≡◌, refl, Bool, true, false, Bool-cases, inl, inr, List, [], ◌∷◌, count_if, Precedes, Ordered,
  arith,
}
use overload_party_scenario.Postgres.Tables.{insert_by, sort_by}

module _ {A : Type 0} (le : A → A → Bool) where
  count_if-insert_by :
      (p : A → Bool) (x : A) (xs : List A) → count_if p (insert_by le x xs) ≡ count_if p (x ∷ xs)
  count_if-insert_by p x [] = refl
  count_if-insert_by p x (y ∷ ys) = ground (arith, count_if-insert_by p x ys)

  pub count_if-sort_by : (p : A → Bool) (xs : List A) → count_if p (sort_by le xs) ≡ count_if p xs
  count_if-sort_by p [] = refl
  count_if-sort_by p (x ∷ xs) =
      ground (arith, count_if-insert_by p x (sort_by le xs), count_if-sort_by p xs)

  module _ (total : (x y : A) → le x y ≡ false → le y x ≡ true) where
    Precedes-insert_by :
        (y x : A) (ys : List A)
        → le y x ≡ true
        → Precedes le y ys
        → Precedes le y (insert_by le x ys)
    Precedes-insert_by y x [] h k = h
    Precedes-insert_by y x (z ∷ zs) h k = ground arith

    insert_by-Ordered : (x : A) (xs : List A) → Ordered le xs → Ordered le (insert_by le x xs)
    insert_by-Ordered x [] h = (tt, tt)
    insert_by-Ordered x (y ∷ ys) h = elim (Bool-cases (le x y)) [
      | inl e ↦ rw e (e, h)
      | inr e ↦ rw e (Precedes-insert_by y x ys (total x y e) h.0, insert_by-Ordered x ys h.1)
    ]

    pub sort_by-Ordered : (xs : List A) → Ordered le (sort_by le xs)
    sort_by-Ordered [] = tt
    sort_by-Ordered (x ∷ xs) = insert_by-Ordered x (sort_by le xs) (sort_by-Ordered xs)
