-- ===== src/Prelude/Text.antt =====
-- The methods of `str` that the program uses: `len`, and `trim().is_empty()`.
use Prim.Native.Nat.{ℕ}
use Prim.Native.Char.{code}
use Prim.Native.String.{String, len}
use mathlib.Core.Bool.{Bool, true, ◌&&◌, ◌||◌}
use kolyan.Prelude.Tests.{leb}
use kolyan.Prelude.Equality.{◌==◌, ℕ-Eq}

-- `char::is_whitespace`: the property White_Space of Unicode.
unfoldable pub is_whitespace : ℕ → Bool
is_whitespace c =
    (leb 9 c && leb c 13)
    || c == 32
    || c == 133
    || c == 160
    || c == 5760
    || (leb 8192 c && leb c 8202)
    || c == 8232
    || c == 8233
    || c == 8239
    || c == 8287
    || c == 12288

-- `value.trim().is_empty()`
unfoldable pub is_blank : String → Bool
is_blank String.[] = true
is_blank (String.◌∷◌ c s) = is_whitespace (code c) && is_blank s

-- `value.len()`, in bytes
abbrev pub byte_len : String → ℕ
byte_len s = len s

-- `value.bytes().all(|byte| byte.is_ascii_hexdigit())`. A character outside ASCII is coded by bytes
-- from 128 up, none of which is a digit, so the test goes by characters.
unfoldable pub is_hex_digit : ℕ → Bool
is_hex_digit c = (leb 48 c && leb c 57) || (leb 65 c && leb c 70) || (leb 97 c && leb c 102)

unfoldable pub all_hex : String → Bool
all_hex String.[] = true
all_hex (String.◌∷◌ c s) = is_hex_digit (code c) && all_hex s

-- `byte.is_ascii_digit() || (b'a'..=b'f').contains(&byte)`, of all bytes
unfoldable pub is_lower_hex_digit : ℕ → Bool
is_lower_hex_digit c = (leb 48 c && leb c 57) || (leb 97 c && leb c 102)

unfoldable pub all_lower_hex : String → Bool
all_lower_hex String.[] = true
all_lower_hex (String.◌∷◌ c s) = is_lower_hex_digit (code c) && all_lower_hex s
