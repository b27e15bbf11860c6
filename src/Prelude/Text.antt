-- ===== src/Prelude/Text.antt =====
-- What the driver uses of Go's `strings` package, over texts by their characters, and lengths by bytes.
-- A character of an ASCII text is a byte of it.
pub mod Laws
pub mod Order
use csi_driver_flexblock.Prelude.{◌-◌, ltb, ◌∷◌, [], refl}
use Prim.Native.Nat.{ℕ, zero, suc, ◌+◌}
use Prim.Native.Char.{Char, code}
use Prim.Native.String.{String}
use mathlib.Core.Bool.{Bool, true, false, ◌&&◌, ◌||◌}
use mathlib.Core.Option.{Option, none, some}
use mathlib.Core.List.{List, [], ◌∷◌}
use csi_driver_flexblock.Prelude.Tests.{leb, ◌==◌, if◌then◌else◌, is_some}

-- s + t
infixr 65 ◌<>◌
unfoldable pub ◌<>◌ : String → String → String
String.[] <> t = t
(String.◌∷◌ c s) <> t = String.◌∷◌ c (s <> t)

-- len(s), of an ASCII text
unfoldable pub size : String → ℕ
size String.[] = 0
size (String.◌∷◌ c s) = suc (size s)

-- s[n:]; the callers test the length
unfoldable pub skip : ℕ → String → String
skip zero s = s
skip (suc n) String.[] = String.[]
skip (suc n) (String.◌∷◌ c s) = skip n s

-- the bytes of a character in UTF-8
unfoldable pub byte_width : Char → ℕ
byte_width c =
    if ltb (code c) 128
    then 1
    else (if ltb (code c) 2048 then 2 else (if ltb (code c) 65536 then 3 else 4))

-- len(s), which counts bytes
unfoldable pub byte_size : String → ℕ
byte_size String.[] = 0
byte_size (String.◌∷◌ c s) = byte_width c + byte_size s

abbrev pub left_over : ℕ → String → String
left_over zero s = s
left_over (suc n) s = String.◌∷◌ "�" (left_over n s)

-- s[n:], which counts bytes. Where a character is cut, each byte that is left of it stands as U+FFFD, as a text
-- that is not UTF-8 reads.
unfoldable pub skip_bytes : ℕ → String → String
skip_bytes n String.[] = String.[]
skip_bytes n (String.◌∷◌ c s) =
    let rest = skip_bytes (n - byte_width c) s in
    if n == 0
    then String.◌∷◌ c s
    else (if leb (byte_width c) n then rest else left_over (byte_width c - n) s)

-- The rest of the text behind a prefix.
unfoldable pub strip_prefix : String → String → Option String
strip_prefix String.[] s = some s
strip_prefix (String.◌∷◌ p ps) String.[] = none
strip_prefix (String.◌∷◌ p ps) (String.◌∷◌ c s) =
    if code p == code c then strip_prefix ps s else none

-- strings.HasPrefix(s, prefix)
unfoldable pub has_prefix : String → String → Bool
unfolding strip_prefix
has_prefix s prefix = is_some (strip_prefix prefix s)

abbrev pub prepend : Char → Option (String × String) → Option (String × String)
prepend c none = none
prepend c (some (a, b)) = some (String.◌∷◌ c a, b)

abbrev pub here_or : Option String → Option (String × String) → Option (String × String)
here_or (some rest) later = some ("", rest)
here_or none later = later

-- What stands before and behind the first `sep`: strings.Index and strings.SplitN(s, sep, 2).
unfoldable pub cut : String → String → Option (String × String)
unfolding strip_prefix
cut sep String.[] = here_or (strip_prefix sep "") none
cut sep (String.◌∷◌ c s) = here_or (strip_prefix sep (String.◌∷◌ c s)) (prepend c (cut sep s))

-- strings.Contains(s, sub)
unfoldable pub contains : String → String → Bool
unfolding cut
contains s sub = is_some (cut sub s)

abbrev later_or : Option (String × String) → Char → Option String → Option (String × String)
later_or (some (a, b)) c here = some (String.◌∷◌ c a, b)
later_or none c (some rest) = some ("", rest)
later_or none c none = none

-- What stands before and behind the last `sep`: strings.LastIndex. `sep` is not empty.
unfoldable pub cut_last : String → String → Option (String × String)
unfolding strip_prefix
cut_last sep String.[] = none
cut_last sep (String.◌∷◌ c s) = later_or (cut_last sep s) c (strip_prefix sep (String.◌∷◌ c s))

-- s[strings.LastIndex(s, sep)+1:], for a `sep` of one character: all of `s` where it has none.
unfoldable pub base_name : String → String → String
unfolding cut_last
base_name sep s = elim (cut_last sep s) [ none ↦ s | some (a, b) ↦ b ]

abbrev push_char : Char → List String → List String
push_char c [] = []
push_char c (w ∷ ws) = String.◌∷◌ c w ∷ ws

-- strings.Split(s, sep), for a `sep` of one character.
unfoldable pub split : ℕ → String → List String
split sep String.[] = "" ∷ []
split sep (String.◌∷◌ c s) =
    let rest = split sep s in if code c == sep then "" ∷ rest else push_char c rest

-- unicode.IsSpace
unfoldable pub is_space : ℕ → Bool
is_space c =
    (leb 9 c && leb c 13)
    || (c == 32)
    || (c == 0x85)
    || (c == 0xa0)
    || (c == 0x1680)
    || (leb 0x2000 c && leb c 0x200a)
    || (c == 0x2028)
    || (c == 0x2029)
    || (c == 0x202f)
    || (c == 0x205f)
    || (c == 0x3000)

unfoldable pub trim_left : String → String
unfolding is_space
trim_left String.[] = ""
trim_left (String.◌∷◌ c s) =
    let rest = trim_left s in if is_space (code c) then rest else String.◌∷◌ c s

unfoldable pub trim_right : String → String
unfolding is_space
trim_right String.[] = ""
trim_right (String.◌∷◌ c s) = elim (trim_right s) [
  | String.[] ↦ if is_space (code c) then "" else String.◌∷◌ c ""
  | String.◌∷◌ d r ↦ String.◌∷◌ c (String.◌∷◌ d r)
]

-- strings.TrimSpace(s)
unfoldable pub trim_space : String → String
unfolding trim_left trim_right
trim_space s = trim_right (trim_left s)

-- unicode.ToLower, as far as its value is an ASCII letter: U+0130 and U+212A are the only ones
-- above ASCII that it takes to one.
unfoldable pub lower : ℕ → ℕ
lower c =
    if leb b'A' c && leb c b'Z'
    then c + 32
    else if c == 0x130
    then b'i'
    else if c == 0x212a
    then b'k'
    else c

-- strings.HasPrefix(strings.ToLower(s), prefix)
unfoldable pub has_prefix_fold : String → String → Bool
unfolding lower
has_prefix_fold s String.[] = true
has_prefix_fold String.[] (String.◌∷◌ p ps) = false
has_prefix_fold (String.◌∷◌ c s) (String.◌∷◌ p ps) =
    (lower (code c) == code p) && has_prefix_fold s ps

-- s[:n]; the callers test the length
unfoldable pub take_text : ℕ → String → String
take_text zero s = ""
take_text (suc n) String.[] = ""
take_text (suc n) (String.◌∷◌ c s) = String.◌∷◌ c (take_text n s)
