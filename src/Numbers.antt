-- ===== src/Numbers.antt =====
-- Python's conversions of JSON values, which app/mqtt/handlers.py calls: `int(value)`, `float(value)`
-- and `datetime.fromtimestamp(seconds, tz=UTC)`, with the exceptions that they raise.
pub mod Range
use Prim.Native.Char.{code}
use Prim.Native.String as NativeString
use Prim.Native.Nat.{◌^◌}
use my_tracks.Base.{
  ℕ, zero, suc, ◌+◌, ◌-◌, ◌*◌, ◌/◌, ◌%◌, String, Option, none, some, List, [], ◌∷◌, Bool, true,
  false, ltb, leb, ◌==◌, compared_numbers, if◌then◌else◌, ◌&&◌, ◌||◌, ◌≡◌, refl,
}
use my_tracks.Base.Int.{ℤ, pos, negsuc, negate}
use my_tracks.Json.{Json}
use my_tracks.Text.{is_space}

pub data PyError : Type 0 where
  value_error type_error os_error overflow_error : PyError

pub data Try (A : Type 0) : Type 0 where
  ok : A → Try A
  raised : PyError → Try A

infixl 5 ◌>>=◌
abbrev pub ◌>>=◌ : {A B : Type 0} → Try A → (A → Try B) → Try B
ok a >>= k = k a
raised e >>= k = raised e

-- Inversion of a block that returned.
pub bind-eq-ok :
    {A B : Type 0} (m : Try A) (k : A → Try B) {b : B}
    → (m >>= k) ≡ ok b
    → (a : A) × (m ≡ ok a) × (k a ≡ ok b)
bind-eq-ok (ok a) k e = (a, refl, e)
bind-eq-ok (raised x) k e = cc

-- The first of each ten consecutive decimal digits of Unicode 16 beyond ASCII.
abbrev decimal_zeros : List ℕ
decimal_zeros =
    0x660 ∷ 0x6f0 ∷ 0x7c0 ∷ 0x966 ∷ 0x9e6 ∷ 0xa66 ∷ 0xae6 ∷ 0xb66 ∷ 0xbe6 ∷ 0xc66 ∷ 0xce6 ∷ 0xd66
    ∷ 0xde6 ∷ 0xe50 ∷ 0xed0 ∷ 0xf20 ∷ 0x1040 ∷ 0x1090 ∷ 0x17e0 ∷ 0x1810 ∷ 0x1946 ∷ 0x19d0 ∷ 0x1a80
    ∷ 0x1a90 ∷ 0x1b50 ∷ 0x1bb0 ∷ 0x1c40 ∷ 0x1c50 ∷ 0xa620 ∷ 0xa8d0 ∷ 0xa900 ∷ 0xa9d0 ∷ 0xa9f0
    ∷ 0xaa50 ∷ 0xabf0 ∷ 0xff10 ∷ 0x104a0 ∷ 0x10d30 ∷ 0x10d40 ∷ 0x11066 ∷ 0x110f0 ∷ 0x11136 ∷ 0x111d0
    ∷ 0x112f0 ∷ 0x11450 ∷ 0x114d0 ∷ 0x11650 ∷ 0x116c0 ∷ 0x116d0 ∷ 0x116da ∷ 0x11730 ∷ 0x118e0
    ∷ 0x11950 ∷ 0x11bf0 ∷ 0x11c50 ∷ 0x11d50 ∷ 0x11da0 ∷ 0x11f50 ∷ 0x16a60 ∷ 0x16ac0 ∷ 0x16b50
    ∷ 0x16d70 ∷ 0x1ccf0 ∷ 0x1d7ce ∷ 0x1d7d8 ∷ 0x1d7e2 ∷ 0x1d7ec ∷ 0x1d7f6 ∷ 0x1e140 ∷ 0x1e2f0
    ∷ 0x1e4f0 ∷ 0x1e5f1 ∷ 0x1e950 ∷ 0x1fbf0 ∷ []

unfoldable pub decimal_of : ℕ → List ℕ → Option ℕ
decimal_of c [] = none
decimal_of c (first ∷ firsts) =
    let found = decimal_of c firsts in
    if leb first c && ltb c (first + 10) then some (c - first) else found

abbrev digit_or_mark : Option ℕ → ℕ
digit_or_mark none = b'?'
digit_or_mark (some d) = b'0' + d

-- Numbers are read from ASCII: other spaces and decimal digits are put as the ASCII ones.
unfoldable pub as_ascii : ℕ → ℕ
unfolding is_space decimal_of
as_ascii c =
    if ltb c 127 then c else if is_space c then 32 else digit_or_mark (decimal_of c decimal_zeros)

unfoldable pub ascii_codes : String → List ℕ
unfolding as_ascii
ascii_codes NativeString.[] = []
ascii_codes (NativeString.◌∷◌ c s) = as_ascii (code c) ∷ ascii_codes s

is_c_space : ℕ → Bool
is_c_space c = leb 9 c && leb c 13 || c == 32

unfoldable pub skip_spaces : List ℕ → List ℕ
unfolding is_c_space
skip_spaces [] = []
skip_spaces (c ∷ s) = let rest = skip_spaces s in if is_c_space c then rest else c ∷ s

unfoldable pub drop_spaces : List ℕ → List ℕ
unfolding is_c_space
drop_spaces [] = []
drop_spaces (c ∷ s) =
    let rest = drop_spaces s in if is_c_space c && empty rest then [] else c ∷ rest
  where
    empty : List ℕ → Bool
    empty [] = true
    empty (_ ∷ _) = false

pub data Glyph : Type 0 where
  digit : ℕ → Glyph
  sign : Bool → Glyph
  underscore point exponent other : Glyph

unfoldable pub glyph : ℕ → Glyph
glyph c =
    if leb b'0' c && leb c b'9'
    then digit (c - b'0')
    else if c == b'_'
    then underscore
    else if c == b'.'
    then point
    else if c == b'e' || c == b'E'
    then exponent
    else if c == b'-'
    then sign true
    else if c == b'+'
    then sign false
    else other

-- How far an integer has been read: its sign, its value and the number of its digits.
pub data IntState : Type 0 where
  start wrong : IntState
  signed : Bool → IntState
  digits gap : Bool → ℕ → ℕ → IntState

abbrev pub int_step : IntState → Glyph → IntState
int_step start (digit d) = digits false d 1
int_step start (sign minus) = signed minus
int_step (signed minus) (digit d) = digits minus d 1
int_step (digits minus n count) (digit d) = digits minus (n * 10 + d) (count + 1)
int_step (digits minus n count) underscore = gap minus n count
int_step (gap minus n count) (digit d) = digits minus (n * 10 + d) (count + 1)
int_step _ _ = wrong

abbrev pub int_value : IntState → Try ℤ
int_value (digits minus n count) =
    if ltb 4300 count then raised value_error else ok (if minus then negate n else pos n)
int_value _ = raised value_error

unfoldable pub int_run : IntState → List ℕ → IntState
unfolding glyph
int_run s [] = s
int_run s (c ∷ rest) = int_run (int_step s (glyph c)) rest

unfoldable pub int_of_text : String → Try ℤ
unfolding int_run ascii_codes skip_spaces drop_spaces
int_of_text s = int_value (int_run start (drop_spaces (skip_spaces (ascii_codes s))))

-- A float's value without its fraction, from its bits: sign, eleven of exponent, 52 of significand.
unfoldable pub int_of_float : ℕ → Try ℤ
int_of_float bits =
    let exponent : ℕ = bits / 2 ^ 52 % 2048 in
    let significand : ℕ = bits % 2 ^ 52 in
    let whole : ℕ = (2 ^ 52 + significand) * 2 ^ (exponent - 1023) / 2 ^ 52 in
    if exponent == 2047
    then (if significand == 0 then raised overflow_error else raised value_error)
    else if ltb exponent 1023
    then ok (pos 0)
    else ok (if ltb bits (2 ^ 63) then pos whole else negate whole)

-- int(value)
unfoldable pub int : Json → Try ℤ
int Json.null = raised type_error
int (Json.boolean b) = ok (if b then pos 1 else pos 0)
int (Json.int n) = ok n
int (Json.float bits) = int_of_float bits
int (Json.text s) = int_of_text s
int (Json.array _) = raised type_error
int (Json.object _) = raised type_error

-- How far a float has been read.
pub data FloatState : Type 0 where
  start signed bare_point whole whole_gap dotted fraction fraction_gap : FloatState
  scaled scale_signed scale scale_gap wrong : FloatState

abbrev pub float_step : FloatState → Glyph → FloatState
float_step FloatState.start (sign _) = FloatState.signed
float_step FloatState.start (digit _) = FloatState.whole
float_step FloatState.start point = FloatState.bare_point
float_step FloatState.signed (digit _) = FloatState.whole
float_step FloatState.signed point = FloatState.bare_point
float_step FloatState.bare_point (digit _) = FloatState.fraction
float_step FloatState.whole (digit _) = FloatState.whole
float_step FloatState.whole underscore = FloatState.whole_gap
float_step FloatState.whole point = FloatState.dotted
float_step FloatState.whole exponent = FloatState.scaled
float_step FloatState.whole_gap (digit _) = FloatState.whole
float_step FloatState.dotted (digit _) = FloatState.fraction
float_step FloatState.dotted exponent = FloatState.scaled
float_step FloatState.fraction (digit _) = FloatState.fraction
float_step FloatState.fraction underscore = FloatState.fraction_gap
float_step FloatState.fraction exponent = FloatState.scaled
float_step FloatState.fraction_gap (digit _) = FloatState.fraction
float_step FloatState.scaled (digit _) = FloatState.scale
float_step FloatState.scaled (sign _) = FloatState.scale_signed
float_step FloatState.scale_signed (digit _) = FloatState.scale
float_step FloatState.scale (digit _) = FloatState.scale
float_step FloatState.scale underscore = FloatState.scale_gap
float_step FloatState.scale_gap (digit _) = FloatState.scale
float_step _ _ = FloatState.wrong

abbrev pub complete : FloatState → Bool
complete FloatState.whole = true
complete FloatState.dotted = true
complete FloatState.fraction = true
complete FloatState.scale = true
complete _ = false

unfoldable pub float_run : FloatState → List ℕ → FloatState
unfolding glyph
float_run s [] = s
float_run s (c ∷ rest) = float_run (float_step s (glyph c)) rest

-- A word, with capitals read as small letters.
unfoldable pub spells : String → List ℕ → Bool
spells NativeString.[] [] = true
spells NativeString.[] (_ ∷ _) = false
spells (NativeString.◌∷◌ _ _) [] = false
spells (NativeString.◌∷◌ c w) (d ∷ s) =
    (code c == d || leb b'A' d && leb d b'Z' && code c == d + 32) && spells w s

unfoldable pub unsigned : List ℕ → List ℕ
unsigned [] = []
unsigned (c ∷ s) = if c == b'-' || c == b'+' then s else c ∷ s

unfoldable pub reads_as_float : List ℕ → Bool
unfolding float_run spells unsigned
reads_as_float s =
    complete (float_run FloatState.start s)
    || spells "inf" (unsigned s)
    || spells "infinity" (unsigned s)
    || spells "nan" (unsigned s)

abbrev magnitude : ℤ → ℕ
magnitude (pos n) = n
magnitude (negsuc n) = n + 1

-- float(value): the number is the value itself, read as a float.
unfoldable pub float : Json → Try Json
unfolding reads_as_float ascii_codes skip_spaces drop_spaces
float Json.null = raised type_error
float (Json.boolean b) = ok (Json.boolean b)
float (Json.int n) =
    if ltb (magnitude n) (2 ^ 1024 - 2 ^ 970) then ok (Json.int n) else raised overflow_error
float (Json.float bits) = ok (Json.float bits)
float (Json.text s) =
    if reads_as_float (drop_spaces (skip_spaces (ascii_codes s)))
    then ok (Json.text s)
    else raised value_error
float (Json.array _) = raised type_error
float (Json.object _) = raised type_error

-- The seconds of 0001-01-01 00:00:00 before the epoch, of 9999-12-31 23:59:59 after it, and the bounds
-- of the platform's time_t.
abbrev pub seconds_before : ℕ
seconds_before = 62135596800

abbrev pub seconds_after : ℕ
seconds_after = 253402300799

abbrev within : ℤ → ℕ → ℕ → Bool
within (pos n) below above = leb n above
within (negsuc n) below above = ltb n below

-- datetime.fromtimestamp(seconds, tz=UTC): the instant is its seconds. Beyond the years of `datetime`
-- the error is an OSError or a ValueError.
unfoldable pub fromtimestamp : ℤ → Try ℤ
fromtimestamp seconds =
    if within seconds seconds_before seconds_after
    then ok seconds
    else if within seconds (2 ^ 63) (2 ^ 63 - 1)
    then raised value_error
    else raised overflow_error
