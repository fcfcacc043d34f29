-- ===== src/Common/Texts.antt =====
-- Texts by characters.
use Prim.Native.Nat.{ℕ, zero, suc, ◌≤◌}
use Prim.Native.String.{String, [], ◌∷◌, count}
use text.Mathlib.TextLemmas.{length-cons}
use Prim.Native.Char.{Char, code}
use mathlib.Core.Bool.{Bool, true, false, not, ◌&&◌, ◌||◌}
use mathlib.Core.List.{List, [] as no_parts, ◌∷◌ as cons}
use native.Mathlib.Omega.{arith}
use forum_relay.Common.Tests.{◌==◌, string_eq, nat_eq, leb, if◌then◌else◌}

-- `Array.from(s).slice(0, n).join("")`
unfoldable pub first_chars : ℕ → String → String
first_chars zero s = ""
first_chars (suc n) [] = ""
first_chars (suc n) (c ∷ s) = c ∷ first_chars n s

pub count-first_chars : (n : ℕ) (s : String) → count (first_chars n s) ≤ n
unfolding first_chars
count-first_chars zero s = omega arith
count-first_chars (suc n) [] = omega arith
count-first_chars (suc n) (c ∷ s) =
    omega (arith, length-cons c (first_chars n s), count-first_chars n s)

-- `s.includes(c)`, for one character.
unfoldable pub includes : Char → String → Bool
includes c [] = false
includes c (d ∷ s) = nat_eq (code c) (code d) || includes c s

-- `s.endsWith(end)`
unfoldable pub ends_with : String → String → Bool
ends_with end [] = end == ""
ends_with end (c ∷ s) = end == c ∷ s || ends_with end s

-- Each character passes the test.
unfoldable pub all_chars : (Char → Bool) → String → Bool
all_chars p [] = true
all_chars p (c ∷ s) = p c && all_chars p s

-- `c` is among the characters of `first` to `last`.
abbrev pub is_between : Char → Char → Char → Bool
is_between first last c = leb (code first) (code c) && leb (code c) (code last)

-- The order of SQLite's BINARY collation: by code points, as the UTF-8 bytes are ordered.
unfoldable pub text_leb : String → String → Bool
text_leb [] t = true
text_leb (c ∷ s) [] = false
text_leb (c ∷ s) (d ∷ t) =
    let later = text_leb s t in if nat_eq (code c) (code d) then later else leb (code c) (code d)

-- `s.startsWith(start)`
unfoldable pub starts_with : String → String → Bool
starts_with [] s = true
starts_with (c ∷ start) [] = false
starts_with (c ∷ start) (d ∷ s) = nat_eq (code c) (code d) && starts_with start s

-- `s.slice(n)`
unfoldable pub drop_chars : ℕ → String → String
drop_chars zero s = s
drop_chars (suc n) [] = ""
drop_chars (suc n) (c ∷ s) = drop_chars n s

abbrev onto : Char → List String → List String
onto c no_parts = cons (c ∷ "") no_parts
onto c (cons s ss) = cons (c ∷ s) ss

-- `s.split(c)`, for one character.
unfoldable pub split_at : Char → String → List String
split_at c [] = cons "" no_parts
split_at c (d ∷ s) =
    let later = split_at c s in if nat_eq (code c) (code d) then cons "" later else onto d later

-- `/^\d+$/`
unfoldable pub is_number : String → Bool
unfolding all_chars
is_number s = not (s == "") && all_chars (is_between "0" "9") s
