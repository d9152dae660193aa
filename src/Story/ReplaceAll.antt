-- ===== src/Story/ReplaceAll.antt =====
-- strings.ReplaceAll, as `readScript` uses it: every occurrence from the left that does not overlap
-- an earlier one. The old text is not empty.
use Prim.Native.Char.{code}
use Prim.Native.String
use overload_party_scenario.Common.{
  ℕ, zero, suc, ◌-◌, String, Option, none, some, eqb, if◌then◌else◌, ◌≡◌, refl,
}

-- The rest of a text behind a prefix.
abbrev pub strip : String → String → Option String
strip String.[] s = some s
strip (String.◌∷◌ p ps) String.[] = none
strip (String.◌∷◌ p ps) (String.◌∷◌ c s) =
    let rest = strip ps s in if eqb (code p) (code c) then rest else none

-- One character is taken at a time: `skip` characters more belong to the occurrence just replaced.
replace_from : ℕ → String → String → String → String
replace_from skip old new String.[] = ""
replace_from (suc skip) old new (String.◌∷◌ c s) = replace_from skip old new s
replace_from zero old new (String.◌∷◌ c s) =
    let here = String.◌++◌ new (replace_from (String.count old - 1) old new s) in
    let next = String.◌∷◌ c (replace_from zero old new s) in
    elim (strip old (String.◌∷◌ c s)) [ none ↦ next | some _ ↦ here ]

unfoldable pub replace_all : String → String → String → String
unfolding replace_from
replace_all s old new = replace_from 0 old new s

replace_all-path : replace_all "scripts/{lang}/ep1.{lang}.ks" "{lang}" "en" ≡ "scripts/en/ep1.en.ks"
unfolding replace_all
replace_all-path = refl
