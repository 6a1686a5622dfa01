-- ===== src/Text.antt =====
-- Texts that the code takes apart, as their code points: their length in bytes, as Go
-- counts it, and the functions of package strings that server/access.go,
-- server/password.go and server/phone.go call.
use Prim.Native.Char.{code}
use mokey.Base.{
  Bool, List, String, [], if◌then◌else◌, leb, ltb, nat_eq, reverse, string_eq, ℕ, ◌%◌, ◌&&◌, ◌++◌,
  ◌+◌, ◌/◌, ◌==◌, ◌||◌, ◌∷◌,
}

abbrev pub Text : Type 0
Text = List ℕ

abbrev pub codes : String → Text
codes Prim.Native.String.[] = []
codes (Prim.Native.String.◌∷◌ c s) = code c ∷ codes s

-- How many bytes a rune takes in a string.
unfoldable pub rune_len : ℕ → ℕ
rune_len r = if ltb r 128 then 1 else if ltb r 2048 then 2 else if ltb r 65536 then 3 else 4

-- len(s)
abbrev pub byte_length : Text → ℕ
byte_length [] = 0
byte_length (r ∷ rs) = rune_len r + byte_length rs

-- unicode.IsSpace
unfoldable pub is_space : ℕ → Bool
is_space r =
    leb 9 r && leb r 13
    || r == 32
    || r == 133
    || r == 160
    || r == 5760
    || leb 8192 r && leb r 8202
    || r == 8232
    || r == 8233
    || r == 8239
    || r == 8287
    || r == 12288

abbrev pub trim_left : Text → Text
trim_left [] = []
trim_left (r ∷ rs) = if is_space r then trim_left rs else r ∷ rs

-- strings.TrimSpace
unfoldable pub trim_space : Text → Text
trim_space t = reverse (trim_left (reverse (trim_left t)))

-- []byte of a rune that is a Unicode code point.
unfoldable pub utf8 : ℕ → List ℕ
utf8 r =
    let trail = λ (unit : ℕ). 128 + r / unit % 64 in
    if ltb r 128
    then r ∷ []
    else if ltb r 2048
    then (192 + r / 64) ∷ trail 1 ∷ []
    else if ltb r 65536
    then (224 + r / 4096) ∷ trail 64 ∷ trail 1 ∷ []
    else (240 + r / 262144) ∷ trail 4096 ∷ trail 64 ∷ trail 1 ∷ []

-- []byte(s)
unfoldable pub utf8_bytes : Text → List ℕ
unfolding utf8
utf8_bytes [] = []
utf8_bytes (r ∷ rs) = utf8 r ++ utf8_bytes rs
