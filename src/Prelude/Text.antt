-- ===== src/Prelude/Text.antt =====
-- Texts, character by character.
use Prim.Native.Nat.{ℕ, zero, suc, ◌/◌, ◌%◌, ◌+◌}
use Prim.Native.String.{String, [] as end_text, ◌∷◌ as ◌:+◌, ◌++◌, find, slice}
use mathlib.Core.Bool.{Bool}
use mathlib.Core.List.{[], ◌∷◌}
use bit_cord.Prelude.Tests.{Bytes, nat_eqb}

-- `chars().take(n).collect()`
abbrev pub first_chars : ℕ → String → String
first_chars zero s = end_text
first_chars (suc n) end_text = end_text
first_chars (suc n) (c :+ s) = c :+ first_chars n s

-- `starts_with`
abbrev pub starts_with : String → String → Bool
starts_with s prefix = nat_eqb (find s prefix) 0

abbrev hex_digit : ℕ → String
hex_digit n = slice "0123456789abcdef" n (n + 1)

-- `format!("{b:02x}")` for each byte.
abbrev pub hex : Bytes → String
hex [] = ""
hex (b ∷ bs) = (hex_digit (b / 16) ++ hex_digit (b % 16)) ++ hex bs
