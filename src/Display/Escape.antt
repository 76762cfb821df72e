-- ===== src/Display/Escape.antt =====
-- Escaped values stay on one line and can be read back.
use Prim.Native.Char.{Char, code}
use Prim.Native.String.{[], ◌∷◌, ◌++◌}
use text.Mathlib.TextEquality.{Char-path}
use text.Mathlib.TextLemmas.{nil-append, cons-append}
use my_tracks.Base.{
  String, Bool, true, false, ◌==◌, compared_numbers, if◌then◌else◌, ◌≡◌, ◌≢◌, refl, arith, ap, sym,
  ◌∙◌, inl, inr, Bool-cases,
}
use my_tracks.Display.{replace_char, escape_log_value}

module _ (rest : String) where
  slashes : "\\\\" ++ rest ≡ "\\" ∷ "\\" ∷ rest
  slashes = rw (cons-append, cons-append, nil-append) refl

  slash_r : "\\r" ++ rest ≡ "\\" ∷ "r" ∷ rest
  slash_r = rw (cons-append, cons-append, nil-append) refl

  slash_n : "\\n" ++ rest ≡ "\\" ∷ "n" ∷ rest
  slash_n = rw (cons-append, cons-append, nil-append) refl

  slash_comma : "\\," ++ rest ≡ "\\" ∷ "," ∷ rest
  slash_comma = rw (cons-append, cons-append, nil-append) refl

-- What one character becomes.
abbrev pub escape_char : Char → String → String
escape_char c rest =
    if code c == b'\\'
    then "\\" ∷ "\\" ∷ rest
    else if code c == b'\r'
    then "\\" ∷ "r" ∷ rest
    else if code c == b'\n'
    then "\\" ∷ "n" ∷ rest
    else if code c == b','
    then "\\" ∷ "," ∷ rest
    else c ∷ rest

escape_log_value-cons :
    (c : Char) (s : String) → escape_log_value (c ∷ s) ≡ escape_char c (escape_log_value s)
unfolding escape_log_value replace_char
escape_log_value-cons c s = elim (Bool-cases (code c == b'\\')) [
  | inl slash ↦ rw (slash, slashes) refl
  | inr d₁ ↦ elim (Bool-cases (code c == b'\r')) [
    | inl return ↦ rw (d₁, return, slash_r) refl
    | inr d₂ ↦ elim (Bool-cases (code c == b'\n')) [
      | inl newline ↦ rw (d₁, d₂, newline, slash_n) refl
      | inr d₃ ↦ elim (Bool-cases (code c == b',')) [
        | inl comma ↦ rw (d₁, d₂, d₃, comma, slash_comma) refl
        | inr d₄ ↦ rw (d₁, d₂, d₃, d₄) refl
      ]
    ]
  ]
]

-- No line break is in a text.
abbrev pub IsOneLine : String → Type 0
IsOneLine [] = Unit
IsOneLine (c ∷ s) = (code c ≢ b'\n') × (code c ≢ b'\r') × IsOneLine s

-- A reader of escaped values; `true` is behind a backslash.
abbrev unescaped : Char → Char
unescaped c = if code c == b'r' then "\r" else if code c == b'n' then "\n" else c

unescape_from : Bool → String → String
unescape_from b [] = []
unescape_from b (c ∷ s) =
    let escaped = unescape_from true s in
    let plain = unescape_from false s in
    if b then unescaped c ∷ plain else if code c == b'\\' then escaped else c ∷ plain

unfoldable pub unescape : String → String
unfolding unescape_from
unescape = unescape_from false

escape_char-IsOneLine : (c : Char) (rest : String) → IsOneLine rest → IsOneLine (escape_char c rest)
escape_char-IsOneLine c rest h = ground (arith, h)

unescape-escape_char :
    (c : Char) (rest : String) → unescape (escape_char c rest) ≡ c ∷ unescape rest
unfolding unescape
unescape-escape_char c rest = elim (Bool-cases (code c == b'\\')) [
  | inl slash ↦ rw slash (
      ap (λ (d : Char). d ∷ unescape rest)
        (Char-path "\\" c (sym ((compared_numbers.agree_iff _ _).0 slash))))
  | inr d₁ ↦ elim (Bool-cases (code c == b'\r')) [
    | inl return ↦
        rw (d₁, return)
          (ap (λ (d : Char). d ∷ unescape rest)
            (Char-path "\r" c (sym ((compared_numbers.agree_iff _ _).0 return))))
    | inr d₂ ↦ elim (Bool-cases (code c == b'\n')) [
      | inl newline ↦
          rw (d₁, d₂, newline)
            (ap (λ (d : Char). d ∷ unescape rest)
              (Char-path "\n" c (sym ((compared_numbers.agree_iff _ _).0 newline))))
      | inr d₃ ↦ elim (Bool-cases (code c == b',')) [
        | inl comma ↦
            rw (d₁, d₂, d₃, comma)
              (ap (λ (d : Char). d ∷ unescape rest)
                (Char-path "," c (sym ((compared_numbers.agree_iff _ _).0 comma))))
        | inr d₄ ↦ rw (d₁, d₂, d₃, d₄) (rw d₁ refl)
      ]
    ]
  ]
]

-- Whatever a device has sent, its escaped value has no line break, and can be read back: a backslash keeps
-- the comma or backslash behind it, and its `r` and `n` are the two line breaks.
pub unescape-escape_log_value :
    (s : String) → IsOneLine (escape_log_value s) × (unescape (escape_log_value s) ≡ s)
unfolding unescape escape_log_value replace_char
unescape-escape_log_value [] = (tt, refl)
unescape-escape_log_value (c ∷ s) =
    let (line, back) = unescape-escape_log_value s in
    rw (escape_log_value-cons c s) (
      escape_char-IsOneLine c (escape_log_value s) line,
      unescape-escape_char c (escape_log_value s) ∙ ap (λ t. c ∷ t) back,
    )
