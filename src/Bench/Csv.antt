-- ===== src/Bench/Csv.antt =====
-- write_csv of scripts/bench/emit_csv.py: what csv.DictWriter writes to the file.
pub mod Reader
use lidb.Base.{Bool, true, false, ◌||◌, List, [], ◌∷◌, ◌++◌, map, nat_eq, ℕ, if◌then◌else◌}
use lidb.Str.{Text, codes}
use lidb.Bench.Rows.{Row}

abbrev pub fieldnames : List Text
fieldnames =
    codes "benchmark"
    ∷ codes "lang"
    ∷ codes "variant"
    ∷ codes "threads"
    ∷ codes "metric"
    ∷ codes "value"
    ∷ codes "unit"
    ∷ codes "git_sha"
    ∷ codes "cpu_model"
    ∷ codes "flags"
    ∷ codes "passed"
    ∷ codes "os"
    ∷ []

-- The values of a row under the field names.
abbrev pub row_fields : Row → List Text
row_fields r =
    r.benchmark ∷ r.lang ∷ r.variant ∷ r.threads ∷ r.metric ∷ r.value ∷ r.unit ∷ r.git_sha
    ∷ r.cpu_model ∷ r.flags ∷ r.passed ∷ r.operating_system ∷ []

-- The characters for which a field is quoted.
unfoldable pub is_special : ℕ → Bool
is_special c = nat_eq c b',' || nat_eq c b'"' || nat_eq c b'\r' || nat_eq c b'\n'

unfoldable pub needs_quotes : Text → Bool
unfolding is_special
needs_quotes [] = false
needs_quotes (c ∷ cs) = is_special c || needs_quotes cs

-- A quote in a field is written twice.
unfoldable pub doubled : Text → Text
doubled [] = []
doubled (c ∷ cs) = let rest = doubled cs in if nat_eq c b'"' then b'"' ∷ b'"' ∷ rest else c ∷ rest

unfoldable pub field_text : Text → Text
unfolding needs_quotes doubled
field_text f = if needs_quotes f then b'"' ∷ (doubled f ++ b'"' ∷ []) else f

-- A line of at least two fields. csv quotes the one empty field of a line, which has no case here.
unfoldable pub line_text : Text → List Text → Text
unfolding field_text
line_text f [] = field_text f ++ b'\r' ∷ b'\n' ∷ []
line_text f (g ∷ gs) = field_text f ++ b',' ∷ line_text g gs

abbrev pub record_text : List Text → Text
record_text [] = b'\r' ∷ b'\n' ∷ []
record_text (f ∷ fs) = line_text f fs

unfoldable pub lines_text : List (List Text) → Text
unfolding line_text
lines_text [] = []
lines_text (r ∷ rs) = record_text r ++ lines_text rs

-- The text that write_csv puts into the file.
unfoldable pub csv_text : List Row → Text
unfolding lines_text
csv_text rows = record_text fieldnames ++ lines_text (map row_fields rows)
