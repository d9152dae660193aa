-- ===== src/ApiClient/Generated/Construction.antt =====
-- What NewClient makes of a server and options.
use Prim.Native.String.{len, slice, compare}
use Prim.Native.String
use package.text.Mathlib.TextPositions.{len-append, slice-append_right}
use overload_party_scenario.Common.{
  String, ◌≡◌, refl, subst, ◌-◌, true, Bool-cases, inl, inr, some, Option-cases, List, arith,
}
use overload_party_scenario.Errors.{Result, ok, err, panic, ok-injective}
use overload_party_scenario.ApiClient.{Doer}
use overload_party_scenario.ApiClient.Generated.{
  Client, ClientOption, has_suffix, with_trailing_slash, with_default_doer, new_client,
}

last_part :
    (s t : String)
    → slice (String.◌++◌ s t) (len (String.◌++◌ s t) - len t) (len (String.◌++◌ s t)) ≡ t
last_part s t =
    let ends : len (String.◌++◌ s t) - len t ≡ len s = rw (len-append s t) omega arith in
    rw (ends, len-append s t) (slice-append_right s t)

has_suffix-append : (s : String) → has_suffix (String.◌++◌ s "/") "/" ≡ true
has_suffix-append s = rw (last_part s "/") refl

with_trailing_slash-has_suffix :
    {S D : Type 0} (c : Client S D) → has_suffix (with_trailing_slash c).server "/" ≡ true
with_trailing_slash-has_suffix c = elim (Bool-cases (has_suffix c.server "/")) [
  | inl e ↦ rw e e
  | inr e ↦ rw e (has_suffix-append c.server)
]

with_default_doer-has_doer :
    {S D : Type 0} (http_client : Doer S D) (c : Client S D)
    → (doer : Doer S D) × ((with_default_doer http_client c).client ≡ some doer)
with_default_doer-has_doer http_client c = elim (Option-cases c.client) [
  | inl absent ↦ (http_client, rw absent refl)
  | inr (doer, present) ↦ (doer, rw present refl)
]

module _ {S D : Type 0} (http_client : Doer S D) (server : String)
    (opts : List (ClientOption S D)) where
  -- A client that NewClient returns has a server that ends in a slash, and a doer.
  pub new_client_usable :
      {c : Client S D}
      → new_client http_client server opts ≡ ok c
      → (has_suffix c.server "/" ≡ true) × ((doer : Doer S D) × (c.client ≡ some doer))
  unfolding new_client
  new_client_usable h = finish _ h
    where
      finish :
          (made : Result (Client S D)) {c : Client S D}
          → elim made [
            | ok c' ↦ ok (with_default_doer http_client (with_trailing_slash c'))
            | err e ↦ err e
            | panic p ↦ panic p
          ]
            ≡ ok c
          → (has_suffix c.server "/" ≡ true) × ((doer : Doer S D) × (c.client ≡ some doer))
      finish (ok made) h =
          subst
            (λ c. (has_suffix c.server "/" ≡ true) × ((doer : Doer S D) × (c.client ≡ some doer)))
            (ok-injective h)
            (
              with_trailing_slash-has_suffix made,
              with_default_doer-has_doer http_client (with_trailing_slash made),
            )
      finish (err e) h = cc
      finish (panic p) h = cc
