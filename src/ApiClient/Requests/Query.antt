-- ===== src/ApiClient/Requests/Query.antt =====
-- The query of a request: the fragments of a styled parameter are put together again.
use Prim.Native.Nat.{compare, Ordering}
use Prim.Native.Char.{Char, code}
use Prim.Native.String
use Prim.Native.String.append
use package.text.Mathlib.TextEquality.{codes_equal}
use package.text.Mathlib.TextLemmas.{append_assoc}
use overload_party_scenario.Common.{
  ℕ, String, ◌==◌, ◌≡◌, refl, sym, ap, ◌∙◌, true, false, Bool-cases, some, List, [], ◌∷◌, ◌++◌, eqb,
  if◌then◌else◌, inl, inr,
}
use overload_party_scenario.Errors.{ok}
use overload_party_scenario.ApiClient.{Libraries}
use overload_party_scenario.ApiClient.Requests.{
  ampersand, split_at, prepend, join, with_lang, query_fragments,
}

join-prepend :
    (separator : String) (c : Char) (parts : List String)
    → join separator (prepend c parts) ≡ String.◌∷◌ c (join separator parts)
join-prepend separator c [] = refl
join-prepend separator c (part ∷ []) = refl
join-prepend separator c (part ∷ (next ∷ parts)) = append.cons c part _

pub split_at-has_part :
    (separator : ℕ) (s : String)
    → (part : String) × (parts : List String) × (split_at separator s ≡ part ∷ parts)
split_at-has_part separator String.[] = ("", [], refl)
split_at-has_part separator (String.◌∷◌ c s) = elim (Bool-cases (eqb (code c) separator)) [
  | inl e ↦ ("", split_at separator s, rw e refl)
  | inr e ↦
      let (part, parts, same) = split_at-has_part separator s in
      (String.◌∷◌ c part, parts, rw (e, same) refl)
]

eqb-compare : (o : Ordering) → elim o [ Ordering.eq ↦ true | _ ↦ false ] ≡ true → o ≡ Ordering.eq
eqb-compare Ordering.lt h = cc
eqb-compare Ordering.eq h = refl
eqb-compare Ordering.gt h = cc

-- A part that ends at a separator.
join-separated :
    (parts : List String) {part : String} {rest : List String}
    → parts ≡ part ∷ rest
    → join "&" ("" ∷ parts) ≡ String.◌∷◌ "&" (join "&" parts)
join-separated parts {part} {rest} e =
    rw e (append.nil _ ∙ append.cons "&" "" _ ∙ ap (String.◌∷◌ "&") (append.nil _))

-- A text that is split at the ampersand and joined by "&" is the text.
pub join-split_at : (s : String) → join "&" (split_at ampersand s) ≡ s
join-split_at String.[] = refl
join-split_at (String.◌∷◌ c s) =
    let rest = join-split_at s in
    elim (Bool-cases (eqb (code c) ampersand)) [
      | inl e ↦
          let (part, parts, same) = split_at-has_part ampersand s in
          rw e (
            join-separated (split_at ampersand s) same ∙ (λ i.
              String.◌∷◌ (sym (codes_equal c "&" (eqb-compare (compare (code c) 38) e)) i)
                (rest i)))
      | inr e ↦ rw e (join-prepend "&" c (split_at ampersand s) ∙ ap (String.◌∷◌ c) rest)
    ]

join-snoc :
    (separator part : String) (parts : List String) (last : String)
    → join separator ((part ∷ parts) ++ (last ∷ []))
      ≡ String.◌++◌ (join separator (part ∷ parts)) (String.◌++◌ separator last)
join-snoc separator part [] last = refl
join-snoc separator part (next ∷ parts) last =
    let rest = join separator (next ∷ parts) in
    rw (join-snoc separator next parts last) (
      ap (String.◌++◌ part) (sym (append_assoc separator rest (String.◌++◌ separator last)))
      ∙ sym (append_assoc part (String.◌++◌ separator rest) (String.◌++◌ separator last)))

module _ {U : Type 0} (lib : Libraries U) where
  -- Where the language is styled as `fragment`, the operation's URL gets that fragment as its query,
  -- with the query that the server's URL has behind it, separated by an ampersand.
  pub with_lang-eq :
      (url : U) (lang : String) {fragment : String}
      → lib.style_query_param "lang" lang ≡ ok fragment
      → with_lang lib (some (some lang)) url
        ≡ ok (
            lib.with_raw_query url (
              if lib.encoded_query url == ""
              then fragment
              else String.◌++◌ fragment (String.◌++◌ "&" (lib.encoded_query url))))
  unfolding with_lang query_fragments
  with_lang-eq url lang {fragment} e =
      let (part, parts, same) = split_at-has_part ampersand fragment in
      let rejoined = ap (join "&") (sym same) ∙ join-split_at fragment in
      rw (e, same)
        elim (Bool-cases (lib.encoded_query url == "")) [
          | inl none_before ↦ rw (none_before, rejoined) refl
          | inr before ↦
              rw (before, join-snoc "&" part parts (lib.encoded_query url), rejoined) refl
        ]
