-- ===== src/Common/Text.antt =====
-- C strings as the list of their characters before the terminating NUL, and what the sources use of
-- the string functions of the C library.
use Prim.Native.Char.{code}
use Prim.Native.String.{String}
use netvizd.Common.{
  ℕ, ◌+◌, ◌-◌, ◌*◌, ◌≡◌, refl, ◌↔◌, Bool, true, false, ◌&&◌, ◌||◌, List, [], ◌∷◌, Option, none,
  some, arith, leb, ◌==◌, if◌then◌else◌, take,
}
use netvizd.Common.Int.{ℤ, pos, negsuc, negate}

abbrev pub Text : Type 0
Text = List ℕ

-- The characters of a literal.
abbrev pub codes : String → Text
codes String.[] = []
codes (String.◌∷◌ c s) = code c ∷ codes s

-- `strcmp(s, t) == 0`
unfoldable pub same_text : Text → Text → Bool
same_text [] [] = true
same_text [] (y ∷ ys) = false
same_text (x ∷ xs) [] = false
same_text (x ∷ xs) (y ∷ ys) = x == y && same_text xs ys

pub same_text_iff : (s t : Text) → (same_text s t ≡ true) ↔ (s ≡ t)
unfolding same_text
same_text_iff [] [] = (λ _. refl, λ _. refl)
same_text_iff [] (y ∷ ys) = (λ h. cc, λ h. cc)
same_text_iff (x ∷ xs) [] = (λ h. cc, λ h. cc)
same_text_iff (x ∷ xs) (y ∷ ys) = ground (arith, same_text_iff xs ys)

-- `strncmp(s, t, n) == 0`
unfoldable pub same_prefix : ℕ → Text → Text → Bool
same_prefix n s t = same_text (take n s) (take n t)

-- `tolower` in the C locale
unfoldable pub to_lower : ℕ → ℕ
to_lower c = if leb b'A' c && leb c b'Z' then c + 32 else c

abbrev pub is_digit : ℕ → Bool
is_digit c = leb b'0' c && leb c b'9'

-- The white space that `atoi` skips: blank, \t \n \v \f \r.
abbrev pub is_space : ℕ → Bool
is_space c = c == b' ' || (leb 9 c && leb c 13)

digits_value : ℕ → Text → ℕ
digits_value acc [] = acc
digits_value acc (c ∷ s) =
    let rest = digits_value (acc * 10 + (c - b'0')) s in if is_digit c then rest else acc

signed_value : Text → ℤ
unfolding digits_value
signed_value [] = pos 0
signed_value (c ∷ s) =
    if c == b'-'
    then negate (digits_value 0 s)
    else if c == b'+'
    then pos (digits_value 0 s)
    else pos (digits_value 0 (c ∷ s))

-- `atoi`, where the number fits an `int`; the behaviour of C is undefined where it does not.
unfoldable pub atoi : Text → ℤ
unfolding signed_value
atoi [] = pos 0
atoi (c ∷ s) = let rest = atoi s in if is_space c then rest else signed_value (c ∷ s)

-- The separators of `strtok_r` in the sources, and the NUL at which a string ends.
unfoldable pub is_sep : Text → ℕ → Bool
is_sep [] c = false
is_sep (s ∷ ss) c = s == c || is_sep ss c

unfoldable pub skip_seps : Text → Text → Text
unfolding is_sep
skip_seps sep [] = []
skip_seps sep (c ∷ s) = let rest = skip_seps sep s in if is_sep sep c then rest else c ∷ s

-- The characters before the next separator, and what stands behind that separator.
unfoldable pub span_word : Text → Text → Text × Text
unfolding is_sep
span_word sep [] = ([], [])
span_word sep (c ∷ s) =
    let rest = span_word sep s in if is_sep sep c then ([], s) else (c ∷ rest.0, rest.1)

-- A call of `strtok_r`: `none` is `NULL`; else the word, and where the next call goes on.
unfoldable pub take_token : Text → Text → Option (Text × Text)
unfolding span_word
take_token sep [] = none
take_token sep (c ∷ r) = some (span_word sep (c ∷ r))

unfoldable pub next_token : Text → Text → Option (Text × Text)
unfolding skip_seps take_token
next_token sep s = take_token sep (skip_seps sep s)

-- What string functions see of a buffer: the characters before the first NUL.
unfoldable pub until_nul : Text → Text
until_nul [] = []
until_nul (c ∷ s) = let rest = until_nul s in if c == 0 then [] else c ∷ rest

atoi_negative : atoi (codes " -42x") ≡ negsuc 41
unfolding atoi
atoi_negative = refl
