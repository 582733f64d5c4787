-- ===== src/Bench/Rows.antt =====
-- The rows of scripts/bench/emit_csv.py. What Python asks the system is a record, and so is its float.
use lidb.Base.{ℕ, Bool, true, false, ◌||◌, [], ◌∷◌, ◌++◌, Option, none, some, if◌then◌else◌}
use lidb.Str.{Text, codes, strip, ◌==◌}
use lidb.Liq.Parser.{lower}

-- What the rows need of float: round(x, n) and str(x).
pub record Printing (F : Type 0) : Type 0 where
  pub round : F → ℕ → F
  pub show : F → Text

-- platform.system(), platform.machine(), and what git has written, if it could be run.
pub record Machine : Type 0 where
  pub system : Text
  pub architecture : Text
  pub git_output : Option Text

-- A dict with the keys of FIELDNAMES; `operating_system` is the key os.
pub record Row : Type 0 where
  pub benchmark : Text
  pub lang : Text
  pub variant : Text
  pub threads : Text
  pub metric : Text
  pub value : Text
  pub unit : Text
  pub git_sha : Text
  pub cpu_model : Text
  pub flags : Text
  pub passed : Text
  pub operating_system : Text

-- t or "unknown"
abbrev pub or_unknown : Text → Text
or_unknown [] = codes "unknown"
or_unknown (c ∷ cs) = c ∷ cs

abbrev pub git_sha_of : Option Text → Text
git_sha_of none = codes "unknown"
git_sha_of (some out) = or_unknown (strip out)

unfoldable pub host_os : Machine → Text
host_os m =
    let sysname = lower m.system in
    if sysname == codes "darwin"
    then codes "darwin"
    else if sysname == codes "linux"
    then codes "linux"
    else if sysname == codes "windows"
    then codes "windows"
    else or_unknown sysname

unfoldable pub cpu_model_of : Machine → Text
cpu_model_of m =
    let machine = lower m.architecture in
    if machine == codes "arm64" || machine == codes "aarch64"
    then codes "arm"
    else if machine == codes "x86_64" || machine == codes "amd64"
    then codes "x86_64"
    else or_unknown machine

-- "" if passed is None, and "true" or "false"
abbrev pub passed_text : Option Bool → Text
passed_text none = []
passed_text (some true) = codes "true"
passed_text (some false) = codes "false"

module _ {F : Type 0} (printing : Printing F) (m : Machine) where
  abbrev pub value_text : Option F → Text
  value_text none = []
  value_text (some x) = printing.show x

  unfoldable pub base_row :
      (benchmark lang metric : Text) (value : Option F) (unit variant : Text) (passed : Option Bool)
      (flags : Text)
      → Row
  unfolding host_os cpu_model_of
  base_row benchmark lang metric value unit variant passed flags = record {
    benchmark = benchmark;
    lang = lang;
    variant = variant;
    threads = codes "1";
    metric = metric;
    value = value_text value;
    unit = unit;
    git_sha = git_sha_of m.git_output;
    cpu_model = cpu_model_of m;
    flags = flags;
    passed = passed_text passed;
    operating_system = host_os m;
  }

  unfoldable pub blocked_row : (benchmark metric unit reason variant : Text) → Row
  unfolding base_row
  blocked_row benchmark metric unit reason variant =
      base_row benchmark (codes "lidb") metric none unit variant (some false)
        (codes "harness_blocked:" ++ reason)

  unfoldable pub measured_row :
      (benchmark metric : Text) (value : F) (unit variant flags : Text) → Row
  unfolding base_row
  measured_row benchmark metric value unit variant flags =
      base_row benchmark (codes "lidb") metric (some (printing.round value 6)) unit variant
        (some true) flags
