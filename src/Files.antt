-- ===== src/Files.antt =====
-- What the bridge sees of a file: os.Lstat and os.ReadFile (os.Open and io.Copy).
use hwcontrol.Base.{ℕ, String}
use hwcontrol.Base.Result.{Result}

-- A regular file has a size and permission bits.
pub data FileStatus : Type 0 where
  unavailable : (message : String) → FileStatus
  symlink : FileStatus
  irregular : FileStatus
  regular : (size permissions : ℕ) → FileStatus

-- What a path is, and what opening and reading it gives.
pub record FileView : Type 0 where
  pub status : FileStatus
  pub contents : Result String

-- A file that may not be there: os.ReadFile told apart by os.ErrNotExist.
pub data ReadFile : Type 0 where
  absent : ReadFile
  unreadable : (message : String) → ReadFile
  contents : (text : String) → ReadFile
