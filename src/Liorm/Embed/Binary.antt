-- ===== src/Liorm/Embed/Binary.antt =====
-- _embed_binary, _build_embed and _run_embed of liorm/embed_engine.py. Paths are texts that Path leaves
-- as they are.
use lidb.Base.{
  ℕ, Bool, true, false, not, List, [], ◌∷◌, ◌++◌, Option, none, some, Outcome, if◌then◌else◌,
}
use lidb.Str.{Text, codes}
use lidb.Errors.{Error}
use lidb.Json.{Json}
use lidb.Liorm.Execute.{Rows}

-- A process that has come back: whether its return code is 0, and what it has written.
pub record Process : Type 0 where
  pub succeeded : Bool
  pub stdout : Text
  pub stderr : Text

-- What the module uses of the system, with a state `W`: the variables LIDB_DATA_DIR and LIDB_EMBED, the
-- root of the repository, whether shutil.which finds cmake, temporary directories, mkdir with parents,
-- the size of a file (`none` where there is no file), subprocess.run with the arguments and the input
-- of a program that can be started, json.loads of its output with the rows in it, and the repr of lists
-- and dicts.
pub record Host (W : Type 0) : Type 0 where
  pub data_dir_variable : Option Text
  pub embed_variable : Option Text
  pub repo_root : Text
  pub has_cmake : Bool
  pub make_temp_dir : W → Text × W
  pub remove_dir : Text → W → W
  pub make_dirs : Text → W → W
  pub file_size : Text → W → Option ℕ
  pub run_process : List Text → Option Text → W → Process × W
  pub load_rows : Text → Outcome Error Rows
  pub repr : Json → Text

-- os.environ.get(...) as a condition
abbrev pub non_empty : Option Text → Option Text
non_empty none = none
non_empty (some []) = none
non_empty (some (c ∷ cs)) = some (c ∷ cs)

-- path.is_file(), from the size of the file
abbrev pub is_file : Option ℕ → Bool
is_file none = false
is_file (some _) = true

module _ {W : Type 0} (host : Host W) where
  open host use {embed_variable, repo_root, has_cmake, make_dirs, file_size, run_process}

  abbrev pub build_paths : List Text
  build_paths =
      (repo_root ++ codes "/build/smoke/lidb_embed") ∷ (repo_root ++ codes "/build/lidb_embed") ∷ []

  -- The path that the variable gives, where it has one, and then the other candidates.
  abbrev pub candidates : Option Text → List Text
  candidates none = build_paths
  candidates (some path) = path ∷ build_paths

  -- The first path at which there is a file.
  unfoldable pub first_file : List Text → W → Option Text
  first_file [] w = none
  first_file (path ∷ paths) w =
      let rest = first_file paths w in if is_file (file_size path w) then some path else rest

  unfoldable pub embed_binary : W → Option Text
  unfolding first_file
  embed_binary w = first_file (candidates (non_empty embed_variable)) w

  abbrev pub build_dir : Text
  build_dir = repo_root ++ codes "/build/smoke"

  -- What the two runs of cmake return is not looked at.
  unfoldable pub build_embed : W → Option Text × W
  unfolding embed_binary
  build_embed w =
      if not has_cmake
      then (none, w)
      else let (_, w1) =
          run_process
            (codes "cmake"
              ∷ codes "-S"
              ∷ repo_root
              ∷ codes "-B"
              ∷ build_dir
              ∷ codes "-DCMAKE_BUILD_TYPE=Release"
              ∷ [])
            none (make_dirs build_dir w) in
        let (_, w2) =
          run_process
            (codes "cmake"
              ∷ codes "--build"
              ∷ build_dir
              ∷ codes "--target"
              ∷ codes "lidb_embed"
              ∷ codes "-j"
              ∷ [])
            none w1 in
        (embed_binary w2, w2)

  -- _embed_binary() or _build_embed()
  abbrev pub found_or_built : Option Text → W → Option Text × W
  found_or_built none w = build_embed w
  found_or_built (some path) w = (some path, w)

  abbrev pub call_embed : List Text → Option Text → Option Text × W → Process × W
  call_embed args stdin (none, w) =
      (record { succeeded = false; stdout = []; stderr = codes "lidb_embed missing" }, w)
  call_embed args stdin (some path, w) = run_process (path ∷ args) stdin w

  unfoldable pub run_embed : List Text → Option Text → W → Process × W
  unfolding embed_binary build_embed
  run_embed args stdin w = call_embed args stdin (found_or_built (embed_binary w) w)
