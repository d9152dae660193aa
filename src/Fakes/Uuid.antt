-- ===== src/Fakes/Uuid.antt =====
-- packages/api-scenario/apiscenariofake/uuid.go. The bytes that crypto/rand gives are a parameter.
use Prim.Native.Nat.{bit_and, bit_or}
use Prim.Native.String.{◌++◌, slice}
use overload_party_scenario.Common.{ℕ, zero, suc, ◌+◌, ◌-◌, ◌/◌, ◌%◌, String, List, [], ◌∷◌, take}
use overload_party_scenario.Errors.{Error, Result, ok, err, panic}
pub mod Version

-- The verb %x on one digit.
abbrev pub hex_digit : ℕ → String
hex_digit n = slice "0123456789abcdef" n (n + 1)

abbrev pub hex_byte : ℕ → String
hex_byte b = hex_digit (b / 16) ++ hex_digit (b % 16)

-- The verb %x on a slice of bytes.
abbrev pub hex : List ℕ → String
hex [] = ""
hex (b ∷ bytes) = hex_byte b ++ hex bytes

-- `b[n] = f(b[n])`
abbrev pub change : ℕ → (ℕ → ℕ) → List ℕ → List ℕ
change n f [] = []
change zero f (b ∷ bytes) = f b ∷ bytes
change (suc n) f (b ∷ bytes) = b ∷ change n f bytes

abbrev drop : ℕ → List ℕ → List ℕ
drop zero bytes = bytes
drop (suc n) [] = []
drop (suc n) (b ∷ bytes) = drop n bytes

-- `b[first:last]`
abbrev pub part : ℕ → ℕ → List ℕ → List ℕ
part first last bytes = take (last - first) (drop first bytes)

-- RFC 4122: the version 4 in byte 6, and the variant 10 in byte 8.
unfoldable pub version_byte : ℕ → ℕ
version_byte b = bit_or (bit_and b 15) 64

unfoldable pub variant_byte : ℕ → ℕ
variant_byte b = bit_or (bit_and b 63) 128

unfoldable pub format : List ℕ → String
format b =
    hex (part 0 4 b)
    ++ ("-"
        ++ (hex (part 4 6 b)
            ++ ("-"
                ++ (hex (part 6 8 b)
                    ++ ("-" ++ (hex (part 8 10 b) ++ ("-" ++ hex (part 10 16 b))))))))

-- `render` is the verb %v on an error. `read` is what rand.Read makes of the 16 bytes.
unfoldable pub new_event_id : (Error → String) → Result (List ℕ) → Result String
new_event_id render (ok bytes) = ok (format (change 8 variant_byte (change 6 version_byte bytes)))
new_event_id render (err e) = panic ("apiscenariofake: crypto/rand.Read failed: " ++ render e)
new_event_id render (panic p) = panic p
