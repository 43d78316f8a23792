-- ===== src/Prelude/Base64.antt =====
-- encoding/base64 of the Go standard library, as the program uses it: StdEncoding over lists of
-- bytes. Decoding skips CR and LF and wants the padding.
use mini_sand_box.Prelude.Tests.{ltb, leb, ◌==◌, if◌then◌else◌}
use mini_sand_box.Prelude.Lists.{All, is_nil}
use Prim.Native.Nat.{ℕ, ◌+◌, ◌-◌, ◌*◌, ◌/◌, ◌%◌, ◌<◌}
use mathlib.Core.Path.{◌≡◌, refl}
use mathlib.Core.Bool.{false, ◌&&◌, ◌||◌}
use mathlib.Core.Option.{Option, none, some}
use mathlib.Core.List.{List, [], ◌∷◌}
use native.Mathlib.Omega.{arith}

-- The character for six bits.
unfoldable pub encode_bits : ℕ → ℕ
encode_bits v =
    if ltb v 26
    then v + 65
    else if ltb v 52
    then v + 71
    else if ltb v 62
    then v - 52 + 48
    else if v == 62
    then b'+'
    else b'/'

unfoldable pub decode_bits : ℕ → Option ℕ
decode_bits c =
    if leb b'A' c && leb c b'Z'
    then some (c - 65)
    else if leb b'a' c && leb c b'z'
    then some (c - 71)
    else if leb b'0' c && leb c b'9'
    then some (c - 48 + 52)
    else if c == b'+'
    then some 62
    else if c == b'/'
    then some 63
    else none

unfoldable pub encode : List ℕ → List ℕ
encode [] = []
encode (a ∷ []) = encode_bits (a / 4) ∷ encode_bits (a % 4 * 16) ∷ b'=' ∷ b'=' ∷ []
encode (a ∷ b ∷ []) =
    encode_bits (a / 4) ∷ encode_bits (a % 4 * 16 + b / 16) ∷ encode_bits (b % 16 * 4) ∷ b'=' ∷ []
encode (a ∷ b ∷ c ∷ rest) =
    encode_bits (a / 4)
    ∷ encode_bits (a % 4 * 16 + b / 16)
    ∷ encode_bits (b % 16 * 4 + c / 64)
    ∷ encode_bits (c % 64)
    ∷ encode rest

decode_one : Option ℕ → Option ℕ → Option (List ℕ)
decode_one (some a) (some b) = some ((a * 4 + b / 16) ∷ [])
decode_one _ _ = none

decode_two : Option ℕ → Option ℕ → Option ℕ → Option (List ℕ)
decode_two (some a) (some b) (some c) = some ((a * 4 + b / 16) ∷ (b % 16 * 16 + c / 4) ∷ [])
decode_two _ _ _ = none

decode_three : Option ℕ → Option ℕ → Option ℕ → Option ℕ → Option (List ℕ) → Option (List ℕ)
decode_three (some a) (some b) (some c) (some d) (some rest) =
    some ((a * 4 + b / 16) ∷ (b % 16 * 16 + c / 4) ∷ (c % 4 * 64 + d) ∷ rest)
decode_three _ _ _ _ _ = none

-- A group that ends in padding.
decode_padded : ℕ → ℕ → ℕ → Option (List ℕ)
unfolding decode_one decode_two
decode_padded a b c =
    if c == b'='
    then decode_one (decode_bits a) (decode_bits b)
    else decode_two (decode_bits a) (decode_bits b) (decode_bits c)

-- Padding may stand only in the last group.
unfoldable pub decode_groups : List ℕ → Option (List ℕ)
unfolding decode_padded decode_three
decode_groups [] = some []
decode_groups (a ∷ b ∷ c ∷ d ∷ rest) =
    let others = decode_groups rest in
    if d == b'='
    then (if is_nil rest then decode_padded a b c else none)
    else decode_three (decode_bits a) (decode_bits b) (decode_bits c) (decode_bits d) others
decode_groups _ = none

unfoldable pub skip_newlines : List ℕ → List ℕ
skip_newlines [] = []
skip_newlines (c ∷ rest) =
    let rest' = skip_newlines rest in if c == 10 || c == 13 then rest' else c ∷ rest'

unfoldable pub decode : List ℕ → Option (List ℕ)
unfolding skip_newlines decode_groups
decode s = decode_groups (skip_newlines s)

abbrev pub IsBytes : List ℕ → Type 0
IsBytes = All (λ b. b < 256)

decode_bits-encode_bits : (v : ℕ) → v < 64 → decode_bits (encode_bits v) ≡ some v
unfolding encode_bits decode_bits
decode_bits-encode_bits v h = ground arith

encode_bits_not_newline :
    (v : ℕ)
    → v < 64
    → ((encode_bits v == 10 || encode_bits v == 13) ≡ false) × ((encode_bits v == b'=') ≡ false)
unfolding encode_bits
encode_bits_not_newline v h = ground arith

skip_newlines-encode : (d : List ℕ) → IsBytes d → skip_newlines (encode d) ≡ encode d
unfolding skip_newlines encode
skip_newlines-encode [] h = refl
skip_newlines-encode (a ∷ []) h =
    ground (arith, encode_bits_not_newline (a / 4), encode_bits_not_newline (a % 4 * 16))
skip_newlines-encode (a ∷ b ∷ []) h = ground (
  arith,
  encode_bits_not_newline (a / 4),
  encode_bits_not_newline (a % 4 * 16 + b / 16),
  encode_bits_not_newline (b % 16 * 4),
)
skip_newlines-encode (a ∷ b ∷ c ∷ rest) h = ground (
  arith,
  encode_bits_not_newline (a / 4),
  encode_bits_not_newline (a % 4 * 16 + b / 16),
  encode_bits_not_newline (b % 16 * 4 + c / 64),
  encode_bits_not_newline (c % 64),
  skip_newlines-encode rest,
)

decode_groups-encode : (d : List ℕ) → IsBytes d → decode_groups (encode d) ≡ some d
unfolding decode_groups encode
decode_groups-encode [] h = refl
decode_groups-encode (a ∷ []) h =
    ground (arith, decode_bits-encode_bits (a / 4), decode_bits-encode_bits (a % 4 * 16))
decode_groups-encode (a ∷ b ∷ []) h = ground (
  arith,
  decode_bits-encode_bits (a / 4),
  decode_bits-encode_bits (a % 4 * 16 + b / 16),
  decode_bits-encode_bits (b % 16 * 4),
  encode_bits_not_newline (b % 16 * 4),
)
decode_groups-encode (a ∷ b ∷ c ∷ rest) h = ground (
  arith,
  decode_bits-encode_bits (a / 4),
  decode_bits-encode_bits (a % 4 * 16 + b / 16),
  decode_bits-encode_bits (b % 16 * 4 + c / 64),
  decode_bits-encode_bits (c % 64),
  encode_bits_not_newline (c % 64),
  decode_groups-encode rest,
)

-- Decoding an encoding gives the bytes back.
pub decode-encode : (d : List ℕ) → IsBytes d → decode (encode d) ≡ some d
unfolding decode
decode-encode d h = rw (skip_newlines-encode d h) (decode_groups-encode d h)

-- The encoding of some bytes is not the empty text.
pub is_nil-encode : (d : List ℕ) → is_nil (encode d) ≡ is_nil d
unfolding encode
is_nil-encode [] = refl
is_nil-encode (a ∷ []) = refl
is_nil-encode (a ∷ b ∷ []) = refl
is_nil-encode (a ∷ b ∷ c ∷ rest) = refl
