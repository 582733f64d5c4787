-- ===== src/Json/Escape.antt =====
-- The escapes of json.dumps, which writes ASCII only.
use lidb.Base.{
  all, not, true, false, ap, arith, Bool, ℕ, ◌+◌, ◌-◌, ◌/◌, ◌%◌, ◌≡◌, refl, ◌&&◌, [], ◌∷◌, ◌++◌,
  nat_eq, leb, ltb, if◌then◌else◌,
}
use lidb.Str.{Text, codes}

hex_digit : ℕ → ℕ
hex_digit d = if ltb d 10 then d + 48 else d + 87

-- \uXXXX
unicode_escape : ℕ → Text
unfolding hex_digit
unicode_escape n =
    b'\\'
    ∷ b'u'
    ∷ hex_digit (n / 4096 % 16)
    ∷ hex_digit (n / 256 % 16)
    ∷ hex_digit (n / 16 % 16)
    ∷ hex_digit (n % 16)
    ∷ []

-- A character outside the basic plane is written as its two surrogates.
surrogates : ℕ → Text
unfolding unicode_escape
surrogates c =
    unicode_escape (0xd800 + (c - 0x10000) / 1024) ++ unicode_escape (0xdc00 + (c - 0x10000) % 1024)

escape_char : ℕ → Text
unfolding surrogates
escape_char c =
    if nat_eq c b'"'
    then codes "\\\""
    else if nat_eq c b'\\'
    then codes "\\\\"
    else if nat_eq c b'\n'
    then codes "\\n"
    else if nat_eq c 13
    then codes "\\r"
    else if nat_eq c b'\t'
    then codes "\\t"
    else if nat_eq c 12
    then codes "\\f"
    else if nat_eq c 8
    then codes "\\b"
    else if leb 32 c && leb c 126
    then c ∷ []
    else if leb 0x10000 c
    then surrogates c
    else unicode_escape c

unfoldable pub escape : Text → Text
unfolding escape_char
escape [] = []
escape (c ∷ cs) = escape_char c ++ escape cs

escape_marks : escape (codes "a\"\n²") ≡ codes "a\\\"\\n\\u00b2"
unfolding escape
escape_marks = refl

-- A character of ASCII that is written as it is.
unfoldable pub is_written : ℕ → Bool
is_written c = leb 32 c && leb c 126 && not (nat_eq c b'"') && not (nat_eq c b'\\')

-- The tests of escape_char on such a character.
record Written (c : ℕ) : Type 0 where
  quote : nat_eq c b'"' ≡ false
  backslash : nat_eq c b'\\' ≡ false
  newline : nat_eq c b'\n' ≡ false
  return : nat_eq c 13 ≡ false
  tab : nat_eq c b'\t' ≡ false
  feed : nat_eq c 12 ≡ false
  back : nat_eq c 8 ≡ false
  shown : (leb 32 c && leb c 126) ≡ true

is_written-Written : (c : ℕ) → is_written c ≡ true → Written c
unfolding is_written
is_written-Written c h = record {
  quote = ground arith;
  backslash = ground arith;
  newline = ground arith;
  return = ground arith;
  tab = ground arith;
  feed = ground arith;
  back = ground arith;
  shown = ground arith;
}

escape_char-written : (c : ℕ) → is_written c ≡ true → escape_char c ≡ c ∷ []
unfolding escape_char
escape_char-written c h =
    let w = is_written-Written c h in
    rw (w.quote, w.backslash, w.newline, w.return, w.tab, w.feed, w.back, w.shown) refl

all-head : (c : ℕ) (s : Text) → all is_written (c ∷ s) ≡ true → is_written c ≡ true
all-head c s h = ground arith

all-tail : (c : ℕ) (s : Text) → all is_written (c ∷ s) ≡ true → all is_written s ≡ true
all-tail c s h = ground arith

pub escape-written : (s : Text) → all is_written s ≡ true → escape s ≡ s
unfolding escape
escape-written [] h = refl
escape-written (c ∷ s) h =
    rw (escape_char-written c (all-head c s h)) (ap (◌∷◌ c) (escape-written s (all-tail c s h)))
