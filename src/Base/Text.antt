-- ===== src/Base/Text.antt =====
-- Character classes of the regular expressions in the source, over code points, and the methods of
-- texts that split and strip them.
use Prim.Native.Char.{Char, code}
use Prim.Native.Nat.{◌+◌, ℕ}
use Prim.Native.String
use Prim.Native.String.{String}
use mathlib.Core.Path.{◌≡◌, refl}
use mathlib.Core.Bool.{Bool, true, false, ◌&&◌, ◌||◌, not}
use mathlib.Core.Option.{Option, none, some}
use native.Mathlib.Omega.{arith}
use text.Mathlib.TextLemmas.{nil-append, cons-append}
use mathlib.Core.List.{List, [], ◌∷◌}
use localstack_bb.Base.Tests.{ltb, leb, ◌==◌, str_eq, if◌then◌else◌}
use localstack_bb.Base.Lists.{any}

-- The zeros of the decimal digits of Unicode: `\d` in a pattern over text matches the ten
-- characters from each of them on.
abbrev pub decimal_zeros : List ℕ
decimal_zeros =
    0x30 ∷ 0x660 ∷ 0x6f0 ∷ 0x7c0 ∷ 0x966 ∷ 0x9e6 ∷ 0xa66 ∷ 0xae6 ∷ 0xb66 ∷ 0xbe6 ∷ 0xc66 ∷ 0xce6
    ∷ 0xd66 ∷ 0xde6 ∷ 0xe50 ∷ 0xed0 ∷ 0xf20 ∷ 0x1040 ∷ 0x1090 ∷ 0x17e0 ∷ 0x1810 ∷ 0x1946 ∷ 0x19d0
    ∷ 0x1a80 ∷ 0x1a90 ∷ 0x1b50 ∷ 0x1bb0 ∷ 0x1c40 ∷ 0x1c50 ∷ 0xa620 ∷ 0xa8d0 ∷ 0xa900 ∷ 0xa9d0
    ∷ 0xa9f0 ∷ 0xaa50 ∷ 0xabf0 ∷ 0xff10 ∷ 0x104a0 ∷ 0x10d30 ∷ 0x11066 ∷ 0x110f0 ∷ 0x11136 ∷ 0x111d0
    ∷ 0x112f0 ∷ 0x11450 ∷ 0x114d0 ∷ 0x11650 ∷ 0x116c0 ∷ 0x11730 ∷ 0x118e0 ∷ 0x11950 ∷ 0x11c50
    ∷ 0x11d50 ∷ 0x11da0 ∷ 0x16a60 ∷ 0x16ac0 ∷ 0x16b50 ∷ 0x1d7ce ∷ 0x1d7d8 ∷ 0x1d7e2 ∷ 0x1d7ec
    ∷ 0x1d7f6 ∷ 0x1e140 ∷ 0x1e2f0 ∷ 0x1e950 ∷ 0x1fbf0 ∷ []

-- `\d`
unfoldable pub is_decimal : Char → Bool
is_decimal c = any (λ z. leb z (code c) && ltb (code c) (z + 10)) decimal_zeros

-- `[0-9a-f]`
unfoldable pub is_hex_digit : Char → Bool
is_hex_digit c =
    (leb b'0' (code c) && leb (code c) b'9') || (leb b'a' (code c) && leb (code c) b'f')

-- `x in xs`, for a list or set of texts.
unfoldable pub contains : String → List String → Bool
contains x [] = false
contains x (y ∷ ys) = str_eq x y || contains x ys

-- `s.split(":", maxsplit=1)`: the text before the first colon and what follows it.
unfoldable pub split_once : String → String × Option String
split_once String.[] = ("", none)
split_once (String.◌∷◌ c s) =
    let (api, rest) = split_once s in
    if code c == 58 then ("", some s) else (String.◌∷◌ c api, rest)

-- `":" not in s`
unfoldable pub no_colon : String → Bool
no_colon String.[] = true
no_colon (String.◌∷◌ c s) = not (code c == 58) && no_colon s

-- A text without a colon, a colon and any text are split into the two texts.
pub split_once-append :
    (s t : String)
    → no_colon s ≡ true
    → split_once (String.◌++◌ s (String.◌++◌ ":" t)) ≡ (s, some t)
unfolding split_once no_colon
split_once-append String.[] t h = rw (nil-append, cons-append, nil-append) refl
split_once-append (String.◌∷◌ c s) t h =
    rw (cons-append c s (String.◌++◌ ":" t)) (ground (arith, split_once-append s t))

-- `s.split(c)` for one character, by its code: the text before the first `c`, and the others.
unfoldable pub split_first : ℕ → String → String × List String
split_first c String.[] = ("", [])
split_first c (String.◌∷◌ d s) =
    let (first, others) = split_first c s in
    if code d == c then ("", first ∷ others) else (String.◌∷◌ d first, others)

unfoldable pub split : ℕ → String → List String
split c s = let (first, others) = split_first c s in first ∷ others

-- `s.lstrip(c)`
unfoldable pub strip_left : ℕ → String → String
strip_left c String.[] = ""
strip_left c (String.◌∷◌ d s) =
    let rest = strip_left c s in if code d == c then rest else String.◌∷◌ d s

-- `c in s`
unfoldable pub has_char : ℕ → String → Bool
has_char c String.[] = false
has_char c (String.◌∷◌ d s) = code d == c || has_char c s

-- `s.split(c, 1)` of a text with the character: what stands before and behind the first one.
unfoldable pub split_at_first : ℕ → String → String × String
split_at_first c String.[] = ("", "")
split_at_first c (String.◌∷◌ d s) =
    let (before, after) = split_at_first c s in
    if code d == c then ("", s) else (String.◌∷◌ d before, after)
