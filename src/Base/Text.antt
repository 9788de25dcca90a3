-- ===== src/Base/Text.antt =====
-- Texts as JavaScript reads them: the length in UTF-16 code units, and identifiers of the form
-- `<tag>_<lowercase hexadecimal digits>`.
use Prim.Native.Nat.{ℕ, zero, suc, ◌+◌}
use Prim.Native.Char.{code}
use Prim.Native.String.{String}
use mathlib.Core.Bool.{Bool, true, false, ◌&&◌, ◌||◌}
use lineageguard.Base.Tests.{leb, ◌==◌, if◌then◌else◌}

-- `s.length`: a code point outside the basic plane takes two units.
unfoldable pub js_length : String → ℕ
js_length String.[] = 0
js_length (String.◌∷◌ c s) = (if leb 0x10000 (code c) then 2 else 1) + js_length s

-- `z.string().min(low).max(high)`.
unfoldable pub has_length : ℕ → ℕ → String → Bool
unfolding js_length
has_length low high s = leb low (js_length s) && leb (js_length s) high

-- `[a-f0-9]`.
is_hex : ℕ → Bool
is_hex c = (leb b'0' c && leb c b'9') || (leb b'a' c && leb c b'f')

-- `^[a-f0-9]{n}$`.
unfoldable pub hex_run : ℕ → String → Bool
unfolding is_hex
hex_run zero String.[] = true
hex_run zero (String.◌∷◌ c s) = false
hex_run (suc n) String.[] = false
hex_run (suc n) (String.◌∷◌ c s) = is_hex (code c) && hex_run n s

-- `^tag[a-f0-9]{n}$`.
unfoldable pub tagged_hex : String → ℕ → String → Bool
unfolding hex_run
tagged_hex String.[] n s = hex_run n s
tagged_hex (String.◌∷◌ p tag) n String.[] = false
tagged_hex (String.◌∷◌ p tag) n (String.◌∷◌ c s) = code p == code c && tagged_hex tag n s

-- The number of characters of a text, as the database counts them.
unfoldable pub char_length : String → ℕ
char_length String.[] = 0
char_length (String.◌∷◌ c s) = suc (char_length s)

-- `length(s) BETWEEN low AND high`.
unfoldable pub is_between : ℕ → ℕ → String → Bool
unfolding char_length
is_between low high s = leb low (char_length s) && leb (char_length s) high
