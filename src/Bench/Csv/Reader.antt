-- ===== src/Bench/Csv/Reader.antt =====
-- A reader of RFC 4180, and that it reads what write_csv has written.
use lidb.Base.{
  ℕ, ◌≡◌, ◌⊎◌, inl, inr, refl, ap, ◌∙◌, false, List, [], ◌∷◌, ◌++◌, map, nat_eq, if◌then◌else◌,
  arith, append-nil, append_assoc, Bool-cases,
}
use lidb.Str.{Text, codes}
use lidb.Bench.Rows.{Row}
use lidb.Bench.Csv.{
  is_special, needs_quotes, doubled, field_text, line_text, lines_text, csv_text, fieldnames,
  row_fields,
}

-- Where the reader stands: before a field, in a bare or a quoted one, behind a quote in a quoted one, or
-- behind the carriage return of a line.
pub data Mode : Type 0 where
  field_start bare in_quotes quote_seen line_end : Mode

-- The records of a text, from a mode with the characters of the field and the fields of the line that
-- have been read. A text that ends inside a line has no record of that line.
unfoldable pub read_from : Mode → Text → List Text → Text → List (List Text)
read_from mode cur fs [] = []
read_from in_quotes cur fs (c ∷ cs) =
    let stay = read_from in_quotes (cur ++ c ∷ []) fs cs in
    let seen = read_from quote_seen cur fs cs in if nat_eq c b'"' then seen else stay
read_from line_end cur fs (c ∷ cs) = fs ∷ read_from field_start [] [] cs
read_from field_start cur fs (c ∷ cs) =
    let quoted = read_from in_quotes [] fs cs in
    let next = read_from field_start [] (fs ++ [] ∷ []) cs in
    let ended = read_from line_end [] (fs ++ [] ∷ []) cs in
    let read = read_from bare (c ∷ []) fs cs in
    if nat_eq c b'"'
    then quoted
    else if nat_eq c b','
    then next
    else if nat_eq c b'\r'
    then ended
    else read
read_from bare cur fs (c ∷ cs) =
    let next = read_from field_start [] (fs ++ cur ∷ []) cs in
    let ended = read_from line_end [] (fs ++ cur ∷ []) cs in
    let read = read_from bare (cur ++ c ∷ []) fs cs in
    if nat_eq c b',' then next else if nat_eq c b'\r' then ended else read
read_from quote_seen cur fs (c ∷ cs) =
    let quote = read_from in_quotes (cur ++ b'"' ∷ []) fs cs in
    let next = read_from field_start [] (fs ++ cur ∷ []) cs in
    let ended = read_from line_end [] (fs ++ cur ∷ []) cs in
    if nat_eq c b'"' then quote else if nat_eq c b',' then next else ended

unfoldable pub read_csv : Text → List (List Text)
unfolding read_from
read_csv text = read_from field_start [] [] text

-- The doubled characters of a field are read back.
in_quotes-doubled :
    (f cur : Text) (fs : List Text) (rest : Text)
    → read_from in_quotes cur fs (doubled f ++ b'"' ∷ rest)
      ≡ read_from quote_seen (cur ++ f) fs rest
unfolding read_from doubled
in_quotes-doubled [] cur fs rest = rw append-nil refl
in_quotes-doubled (c ∷ f) cur fs rest =
    ground (arith, in_quotes-doubled f (cur ++ c ∷ []) fs rest, append_assoc cur (c ∷ []) f)

-- A bare field up to the mark behind it.
bare-append :
    (f cur : Text) (fs : List Text) (rest : Text)
    → needs_quotes f ≡ false
    → read_from bare cur fs (f ++ rest) ≡ read_from bare (cur ++ f) fs rest
unfolding read_from needs_quotes is_special
bare-append [] cur fs rest h = rw append-nil refl
bare-append (c ∷ f) cur fs rest h =
    ground (arith, bare-append f (cur ++ c ∷ []) fs rest, append_assoc cur (c ∷ []) f)

-- The marks behind a field.
abbrev IsMark : ℕ → Type 0
IsMark mark = (mark ≡ b',') ⊎ (mark ≡ b'\r')

quoted-read :
    (f : Text) (mark : ℕ) (fs : List Text) (rest : Text)
    → read_from field_start [] fs (b'"' ∷ (doubled f ++ b'"' ∷ []) ++ mark ∷ rest)
      ≡ read_from quote_seen f fs (mark ∷ rest)
unfolding read_from
quoted-read f mark fs rest =
    ap (read_from in_quotes [] fs) (append_assoc (doubled f) (b'"' ∷ []) (mark ∷ rest))
    ∙ in_quotes-doubled f [] fs (mark ∷ rest)

bare-read :
    (f : Text) (mark : ℕ) (fs : List Text) (rest : Text)
    → IsMark mark
    → needs_quotes f ≡ false
    → read_from field_start [] fs (f ++ mark ∷ rest) ≡ read_from quote_seen f fs (mark ∷ rest)
unfolding read_from needs_quotes is_special
bare-read [] mark fs rest (inl m) h = ground (arith, m)
bare-read [] mark fs rest (inr m) h = ground (arith, m)
bare-read (c ∷ f) mark fs rest (inl m) h =
    ground (arith, m, bare-append f (c ∷ []) fs (mark ∷ rest))
bare-read (c ∷ f) mark fs rest (inr m) h =
    ground (arith, m, bare-append f (c ∷ []) fs (mark ∷ rest))

-- Every field is read up to the mark behind it.
field-read :
    (f : Text) (mark : ℕ) (fs : List Text) (rest : Text)
    → IsMark mark
    → read_from field_start [] fs (field_text f ++ mark ∷ rest)
      ≡ read_from quote_seen f fs (mark ∷ rest)
unfolding field_text
field-read f mark fs rest m = elim (Bool-cases (needs_quotes f)) [
  | inl e ↦ rw e (quoted-read f mark fs rest)
  | inr e ↦ rw e (bare-read f mark fs rest m e)
]

line-read :
    (f : Text) (gs fs : List Text) (rest : Text)
    → read_from field_start [] fs (line_text f gs ++ rest)
      ≡ (fs ++ f ∷ gs) ∷ read_from field_start [] [] rest
unfolding line_text read_from
line-read f [] fs rest =
    ap (read_from field_start [] fs) (append_assoc (field_text f) (b'\r' ∷ b'\n' ∷ []) rest)
    ∙ field-read f b'\r' fs (b'\n' ∷ rest) (inr refl)
line-read f (g ∷ gs) fs rest =
    ap (read_from field_start [] fs) (append_assoc (field_text f) (b',' ∷ line_text g gs) rest)
    ∙ field-read f b',' fs (line_text g gs ++ rest) (inl refl)
    ∙ line-read g gs (fs ++ f ∷ []) rest
    ∙ ap (λ (r : List Text). r ∷ read_from field_start [] [] rest)
        (append_assoc fs (f ∷ []) (g ∷ gs))

-- The lines of rows, whose fields are those of the field names.
rows-read : (rows : List Row) → read_csv (lines_text (map row_fields rows)) ≡ map row_fields rows
unfolding read_csv lines_text
rows-read [] = refl
rows-read (r ∷ rows) =
    line-read r.benchmark _ [] (lines_text (map row_fields rows))
    ∙ ap (λ (rs : List (List Text)). row_fields r ∷ rs) (rows-read rows)

-- What write_csv writes is read back by a reader of RFC 4180, whatever commas, quotes and line ends the
-- values have: the field names, and the values of each row in their order.
pub read_csv-csv_text :
    (rows : List Row) → read_csv (csv_text rows) ≡ fieldnames ∷ map row_fields rows
unfolding read_csv csv_text
read_csv-csv_text rows =
    line-read (codes "benchmark") _ [] (lines_text (map row_fields rows))
    ∙ ap (λ (rs : List (List Text)). fieldnames ∷ rs) (rows-read rows)
