-- ===== src/ApiClient/Requests/Paths.antt =====
-- The paths of the operations that have a path parameter: their characters, and their parts between
-- the slashes.
use Prim.Native.Char.{Char, code}
use Prim.Native.String
use Prim.Native.String.append
use overload_party_scenario.Common.{
  ℕ, String, ◌≡◌, refl, sym, ap, ◌∙◌, Bool, true, false, Bool-cases, List, [], ◌∷◌, eqb, leb, ◌||◌,
  ◌&&◌, inl, inr, arith,
}
use overload_party_scenario.ApiClient.Requests.{split_at, prepend}
use overload_party_scenario.ApiClient.Requests.Query.{split_at-has_part}

-- The code of the character '/'.
abbrev pub slash : ℕ
slash = 47

abbrev pub parts_of : String → List String
parts_of = split_at slash

-- Letters, digits, '-' and '_', which no escape changes in a path, and which make no dot segment.
abbrev pub is_plain_code : ℕ → Bool
is_plain_code n =
    (leb 97 n && leb n 122)
    || ((leb 65 n && leb n 90) || ((leb 48 n && leb n 57) || (eqb n 45 || eqb n 95)))

abbrev pub is_plain : String → Bool
is_plain String.[] = true
is_plain (String.◌∷◌ c s) = is_plain_code (code c) && is_plain s

-- Plain parts between slashes.
abbrev pub is_plain_path : String → Bool
is_plain_path String.[] = true
is_plain_path (String.◌∷◌ c s) = (eqb (code c) slash || is_plain_code (code c)) && is_plain_path s

and_assoc : (a b c : Bool) → (a && (b && c)) ≡ ((a && b) && c)
and_assoc true b c = refl
and_assoc false b c = refl

is_plain_path-append :
    (s t : String) → is_plain_path (String.◌++◌ s t) ≡ (is_plain_path s && is_plain_path t)
is_plain_path-append String.[] t = ap is_plain_path (append.nil t)
is_plain_path-append (String.◌∷◌ c s) t =
    let head = eqb (code c) slash || is_plain_code (code c) in
    ap is_plain_path (append.cons c s t)
    ∙ (ap (λ b. head && b) (is_plain_path-append s t)
        ∙ and_assoc head (is_plain_path s) (is_plain_path t))

is_plain_path_of_plain : (s : String) → is_plain s ≡ true → is_plain_path s ≡ true
is_plain_path_of_plain String.[] h = refl
is_plain_path_of_plain (String.◌∷◌ c s) h =
    let rest = is_plain_path_of_plain s (ground arith) in ground arith

-- A plain part has no slash.
parts_of-plain : (s : String) → is_plain s ≡ true → parts_of s ≡ s ∷ []
parts_of-plain String.[] h = refl
parts_of-plain (String.◌∷◌ c s) h =
    let rest = parts_of-plain s (ground arith) in
    let other : eqb (code c) slash ≡ false = ground arith in rw (other, rest) refl

-- The parts of two texts, of which the last one of the first runs into the first one of the second.
abbrev pub glue : List String → List String → List String
glue [] ys = ys
glue (x ∷ []) [] = x ∷ []
glue (x ∷ []) (y ∷ ys) = String.◌++◌ x y ∷ ys
glue (x ∷ (next ∷ xs)) ys = x ∷ glue (next ∷ xs) ys

glue-empty :
    (ys : List String) (y : String) (rest : List String) → ys ≡ y ∷ rest → glue ("" ∷ []) ys ≡ ys
glue-empty ys y rest e = rw e (ap (λ t. t ∷ rest) (append.nil y))

glue-prepend :
    (c : Char) (x : String) (xs : List String) (y : String) (ys : List String)
    → prepend c (glue (x ∷ xs) (y ∷ ys)) ≡ glue (prepend c (x ∷ xs)) (y ∷ ys)
glue-prepend c x [] y ys = ap (λ t. t ∷ ys) (sym (append.cons c x y))
glue-prepend c x (next ∷ xs) y ys = refl

pub parts_of-append : (s t : String) → parts_of (String.◌++◌ s t) ≡ glue (parts_of s) (parts_of t)
parts_of-append String.[] t =
    let (y, rest, e) = split_at-has_part slash t in
    ap parts_of (append.nil t) ∙ sym (glue-empty (parts_of t) y rest e)
parts_of-append (String.◌∷◌ c s) t =
    let (x, xs, s_parts) = split_at-has_part slash s in
    let (y, ys, t_parts) = split_at-has_part slash t in
    let rest : parts_of (String.◌++◌ s t) ≡ glue (x ∷ xs) (y ∷ ys) =
      parts_of-append s t ∙ rw (s_parts, t_parts) refl in
    ap parts_of (append.cons c s t) ∙ (elim (Bool-cases (eqb (code c) slash)) [
      | inl e ↦ rw (e, rest, s_parts, t_parts) refl
      | inr e ↦ rw (e, rest, s_parts, t_parts) (glue-prepend c x xs y ys)
    ])

module _ (before id after : String) (plain : is_plain id ≡ true) where
  pub path-plain :
      is_plain_path before ≡ true
      → is_plain_path after ≡ true
      → is_plain_path (String.◌++◌ before (String.◌++◌ id after)) ≡ true
  path-plain h k =
      rw
        (
          is_plain_path-append before (String.◌++◌ id after),
          is_plain_path-append id after,
          is_plain_path_of_plain id plain,
          h,
          k,
        )
        refl

  pub path-parts :
      parts_of (String.◌++◌ before (String.◌++◌ id after))
      ≡ glue (parts_of before) (glue (id ∷ []) (parts_of after))
  path-parts =
      parts_of-append before (String.◌++◌ id after)
      ∙ ap (glue (parts_of before)) (parts_of-append id after ∙ rw (parts_of-plain id plain) refl)
