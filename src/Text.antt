-- ===== src/Text.antt =====
-- Walking texts the way the program's `str` methods and regular expressions do: `split("/")`,
-- `split("/", 1)`, `"/".join`, and the longest run of characters that are no slash.
pub mod Laws
use Prim.Native.Char.{Char, code}
use Prim.Native.String.{[], ◌∷◌, ◌++◌}
use mathlib.Core.List
use mathlib.Core.List.{List}
use my_tracks.Base.{
  ℕ, String, Option, none, some, ◌==◌, if◌then◌else◌, ◌≢◌, compared_numbers, compared_texts, Bool,
  leb, ◌&&◌, ◌||◌,
}

-- A word is put before the first part.
abbrev push_head : Char → List String → List String
push_head c List.[] = List.◌∷◌ (c ∷ []) List.[]
push_head c (List.◌∷◌ w ws) = List.◌∷◌ (c ∷ w) ws

-- s.split("/")
unfoldable pub split_slash : String → List String
split_slash [] = List.◌∷◌ "" List.[]
split_slash (c ∷ s) =
    let rest = split_slash s in if code c == b'/' then List.◌∷◌ "" rest else push_head c rest

-- "/".join(parts)
unfoldable pub join_slash : List String → String
join_slash List.[] = ""
join_slash (List.◌∷◌ w List.[]) = w
join_slash (List.◌∷◌ w (List.◌∷◌ v vs)) = w ++ ("/" ++ join_slash (List.◌∷◌ v vs))

abbrev extend : Char → String × Option String → String × Option String
extend c (w, rest) = (c ∷ w, rest)

-- The text before the first slash, and what follows that slash: s.split("/", 1), and the greedy
-- `[^/]+` of a regular expression.
unfoldable pub span_slash : String → String × Option String
span_slash [] = ("", none)
span_slash (c ∷ s) =
    let rest = span_slash s in if code c == b'/' then ("", some s) else extend c rest

-- The characters that `str.strip` removes.
unfoldable pub is_space : ℕ → Bool
is_space c =
    leb 9 c && leb c 13
    || leb 28 c && leb c 32
    || c == 0x85
    || c == 0xa0
    || c == 0x1680
    || leb 0x2000 c && leb c 0x200a
    || c == 0x2028
    || c == 0x2029
    || c == 0x202f
    || c == 0x205f
    || c == 0x3000

strip_left : String → String
strip_left [] = ""
strip_left (c ∷ s) = let rest = strip_left s in if is_space (code c) then rest else c ∷ s

strip_right : String → String
strip_right [] = ""
strip_right (c ∷ s) =
    let rest = strip_right s in if is_space (code c) && rest == "" then "" else c ∷ rest

-- s.strip()
unfoldable pub strip : String → String
unfolding is_space strip_left strip_right
strip s = strip_right (strip_left s)

-- A level of a topic: no character of it is a slash.
abbrev pub IsLevel : String → Type 0
IsLevel [] = Unit
IsLevel (c ∷ s) = (code c ≢ b'/') × IsLevel s
