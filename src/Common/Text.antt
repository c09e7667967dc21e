-- ===== src/Common/Text.antt =====
-- Texts as lists of code points, with the methods of Python's `str` and `bytes` that the services use.
use tokenization.Common.{
  ℕ, ◌+◌, ◌-◌, ◌*◌, Bool, true, false, not, ◌&&◌, ◌||◌, Option, none, some, List, [], ◌∷◌, ltb, leb,
  ◌==◌, if◌then◌else◌,
}
use mathlib.Core.List.{reverse}

-- Python's `str.isspace` on one code point.
unfoldable pub is_space : ℕ → Bool
is_space c =
    leb 9 c && leb c 13
    || leb 28 c && leb c 32
    || c == 133
    || c == 160
    || c == 5760
    || leb 8192 c && leb c 8202
    || c == 8232
    || c == 8233
    || c == 8239
    || c == 8287
    || c == 12288

unfoldable pub strip_left : List ℕ → List ℕ
strip_left [] = []
strip_left (c ∷ cs) = if is_space c then strip_left cs else c ∷ cs

-- `str.strip`
unfoldable pub strip : List ℕ → List ℕ
strip s = reverse (strip_left (reverse (strip_left s)))

-- `str.lower` on ASCII.
unfoldable pub lower : List ℕ → List ℕ
lower [] = []
lower (c ∷ cs) = (if leb b'A' c && leb c b'Z' then c + 32 else c) ∷ lower cs

-- The value of a lower-case hexadecimal digit.
unfoldable pub hex_digit : ℕ → Option ℕ
hex_digit c =
    if leb b'0' c && leb c b'9'
    then some (c - b'0')
    else if leb b'a' c && leb c b'f'
    then some (c - b'a' + 10)
    else none

abbrev prepend_byte : Option ℕ → Option ℕ → Option (List ℕ) → Option (List ℕ)
prepend_byte (some hi) (some lo) (some rest) = some ((hi * 16 + lo) ∷ rest)
prepend_byte _ _ _ = none

-- `bytes.fromhex`: pairs of digits, with ASCII white space allowed between the pairs.
unfoldable pub from_hex : List ℕ → Option (List ℕ)
unfolding hex_digit
from_hex [] = some []
from_hex (c ∷ []) = if leb 9 c && leb c 13 || c == 32 then some [] else none
from_hex (c ∷ d ∷ cs) = elim (leb 9 c && leb c 13 || c == 32) [
  | true ↦ from_hex (d ∷ cs)
  | false ↦ prepend_byte (hex_digit c) (hex_digit d) (from_hex cs)
]

abbrev pub starts_with : List ℕ → List ℕ → Bool
starts_with [] _ = true
starts_with (_ ∷ _) [] = false
starts_with (a ∷ as') (b ∷ bs) = a == b && starts_with as' bs

-- `needle in text`
unfoldable pub contains : List ℕ → List ℕ → Bool
contains needle [] = starts_with needle []
contains needle (c ∷ cs) = starts_with needle (c ∷ cs) || contains needle cs

-- The words of `text.split()` that begin here; `inside` says that a word began before.
unfoldable pub count_words : Bool → List ℕ → ℕ
count_words inside [] = 0
count_words inside (c ∷ cs) =
    (if is_space c || inside then 0 else 1) + count_words (not (is_space c)) cs

-- The order of Python's `sorted` on texts.
abbrev pub text_before : List ℕ → List ℕ → Bool
text_before [] [] = false
text_before [] (_ ∷ _) = true
text_before (_ ∷ _) [] = false
text_before (a ∷ as') (b ∷ bs) = ltb a b || (a == b && text_before as' bs)
