-- ===== src/Fakes/Uuid/Version.antt =====
-- The version and the variant of a fresh identifier.
use Prim.Native.String.{◌++◌}
use overload_party_scenario.Common.{
  ℕ, zero, suc, ◌<◌, ◌%◌, ◌≡◌, refl, inl, inr, String, ◌==◌, eq_iff, Bool, true, ◌&&◌, [], ◌∷◌,
  arith, eqb, Bool-cases, ◌+◌, ◌/◌,
}
use overload_party_scenario.Errors.{Error, ok}
use overload_party_scenario.Fakes.Uuid.{
  hex_digit, hex_byte, hex, version_byte, variant_byte, format, new_event_id,
}

all_below : ℕ → (ℕ → Bool) → Bool
all_below zero p = true
all_below (suc n) p = p n && all_below n p

all_below-at : (n : ℕ) (p : ℕ → Bool) {k : ℕ} → all_below n p ≡ true → k < n → p k ≡ true
unfolding all_below
all_below-at zero p h below = absurd (omega arith)
all_below-at (suc n) p {k} h below = elim (Bool-cases (p n)) [
  | inl e ↦
      let rest : all_below n p ≡ true = rw (all_below, e) at h in
      elim (Bool-cases (eqb k n)) [
        | inl same ↦ let k_is_n : k ≡ n = ground arith in rw k_is_n e
        | inr other ↦ all_below-at n p rest (ground arith)
      ]
  | inr e ↦ let h' = rw (all_below, e) at h in absurd cc
]

is_version : ℕ → Bool
is_version b = hex_byte (version_byte b) == ("4" ++ hex_digit (b % 16))

is_version_everywhere : all_below 256 is_version ≡ true
unfolding all_below is_version version_byte
is_version_everywhere = refl

-- The first digit of a byte, by the two bits of the variant.
abbrev pub variant_digit : ℕ → String
variant_digit b = hex_digit (8 + b / 16 % 4)

is_variant : ℕ → Bool
is_variant b = hex_byte (variant_byte b) == (variant_digit b ++ hex_digit (b % 16))

is_variant_everywhere : all_below 256 is_variant ≡ true
unfolding all_below is_variant variant_byte
is_variant_everywhere = refl

version_byte-hex : (b : ℕ) → b < 256 → hex_byte (version_byte b) ≡ "4" ++ hex_digit (b % 16)
unfolding is_version
version_byte-hex b below = (eq_iff _ _).0 (all_below-at 256 is_version is_version_everywhere below)

variant_byte-hex :
    (b : ℕ) → b < 256 → hex_byte (variant_byte b) ≡ variant_digit b ++ hex_digit (b % 16)
unfolding is_variant
variant_byte-hex b below = (eq_iff _ _).0 (all_below-at 256 is_variant is_variant_everywhere below)

-- An identifier of the 16 random bytes is their five groups of hexadecimal digits, of 4, 2, 2, 2 and 6
-- bytes, where the third group begins with the digit 4, and the fourth with 8, 9, a or b.
pub new_event_id_version_4 :
    (render : Error → String) (b0 b1 b2 b3 b4 b5 b6 b7 b8 b9 b10 b11 b12 b13 b14 b15 : ℕ)
    → b6 < 256
    → b8 < 256
    → new_event_id render (
        ok (
          b0 ∷ b1 ∷ b2 ∷ b3 ∷ b4 ∷ b5 ∷ b6 ∷ b7 ∷ b8 ∷ b9 ∷ b10 ∷ b11 ∷ b12 ∷ b13 ∷ b14 ∷ b15 ∷ []))
      ≡ ok (
          hex (b0 ∷ b1 ∷ b2 ∷ b3 ∷ [])
          ++ ("-"
              ++ (hex (b4 ∷ b5 ∷ [])
                  ++ ("-"
                      ++ ((("4" ++ hex_digit (b6 % 16)) ++ hex (b7 ∷ []))
                          ++ ("-"
                              ++ (((variant_digit b8 ++ hex_digit (b8 % 16)) ++ hex (b9 ∷ []))
                                  ++ ("-" ++ hex (b10 ∷ b11 ∷ b12 ∷ b13 ∷ b14 ∷ b15 ∷ [])))))))))
unfolding new_event_id format
new_event_id_version_4 render b0 b1 b2 b3 b4 b5 b6 b7 b8 b9 b10 b11 b12 b13 b14 b15 h6 h8 =
    rw⁻¹ (version_byte-hex b6 h6, variant_byte-hex b8 h8) refl
