-- ===== src/Driver/System.antt =====
-- What src/obnc.c asks of the operating system and of src/Files.c and src/Paths.c, over a state of
-- the files. The settings of the driver are with it.
use obnc.Prelude.{ℕ, Bool, Option, List, Bytes, ltb, if◌then◌else◌, Result, ok, halts, ◌>>=◌}

pub record System (F : Type 0) : Type 0 where
  pub exists : Bytes → F → Bool
  -- The modification time of a file that exists.
  pub modified : Bytes → F → ℕ
  pub lines : Bytes → F → List Bytes
  pub write_file : Bytes → Bytes → F → F
  pub remove : Bytes → F → F
  pub move : Bytes → Bytes → F → F
  pub create_dir : Bytes → F → F
  -- `system`: whether the command failed, and the files behind it.
  pub run : Bytes → F → Bool × F
  -- `popen`: the lines that the command prints, unless it fails.
  pub output : Bytes → F → Option (List Bytes)
  pub dirname : Bytes → Bytes
  pub basename : Bytes → Bytes
  pub getenv : Bytes → Option Bytes
  -- `isspace` and `isupper` of a char, which abort where C does not define them.
  pub is_space : ℕ → Result Bool
  pub is_upper : ℕ → Result Bool
  pub prefix : Bytes
  pub import_paths : List Bytes
  pub lib_path : Bytes
  pub build_unified : Bool

module _ {F : Type 0} (sys : System F) where
  -- `Files_Timestamp`, which ends the driver if the file is missing.
  unfoldable pub timestamp : Bytes → F → Result ℕ
  timestamp file fs = if sys.exists file fs then ok (sys.modified file fs) else halts

  -- `Files_Timestamp(a) < Files_Timestamp(b)`
  unfoldable pub older : Bytes → Bytes → F → Result Bool
  older a b fs = do x ← timestamp a fs; y ← timestamp b fs; ok (ltb x y)
