-- ===== src/Os.antt =====
-- What the library takes from its environment: the C library and the kernel, with configfs behind
-- it. None of it is code of the repository, so it is the parameter `Os` of the model: any state
-- `World`, and the calls as functions on it.
pub mod Io
use libusbgx.Base.{ℕ, Bool, List, Option}
use libusbgx.CStr.{CString}

-- A system call succeeds, or it fails and leaves a value in errno.
pub data Sys (A : Type 0) : Type 0 where
  done : A → Sys A
  errno : ℕ → Sys A

-- `struct dirent`: the name, and whether `d_type` is DT_LNK.
pub record Dirent : Type 0 where
  pub name : CString
  pub is_link : Bool

pub data Mode : Type 0 where
  reading writing : Mode

-- The count that `fwrite` returns, and errno if `ferror` holds afterwards.
pub record Written : Type 0 where
  pub count : ℕ
  pub error : Option ℕ

-- The bytes that `fread` put into the buffer, and `ferror`.
pub record Read : Type 0 where
  pub bytes : CString
  pub error : Bool

pub record Os : Type 1 where
  pub World : Type 0
  -- A `FILE *` that is not NULL.
  pub File : Type 0
  -- Whether the next allocation (malloc, strdup, strndup, asprintf, calloc) gives memory.
  pub malloc : World → Bool × World
  -- What a buffer on the stack holds before anything is written to it, from some byte on.
  pub stack : World → CString
  pub opendir : CString → World → Sys (Unit {0}) × World
  pub mkdir : CString → World → Sys (Unit {0}) × World
  pub rmdir : CString → World → Sys (Unit {0}) × World
  pub unlink : CString → World → Sys (Unit {0}) × World
  -- The target, then the link.
  pub symlink : CString → CString → World → Sys (Unit {0}) × World
  -- At most so many bytes of the link's target.
  pub readlink : CString → ℕ → World → Sys CString × World
  -- All entries of a directory, "." and ".." among them, in the order of `alphasort`.
  pub scandir : CString → World → Sys (List Dirent) × World
  -- Whether `stat` succeeds.
  pub stat : CString → World → Bool × World
  pub remove : CString → World → Sys (Unit {0}) × World
  -- A walk over a directory tree, each directory after what is in it, without following links. The
  -- callback gets a path and its level below the directory, and returns 0. Whether it succeeds.
  pub nftw : CString → (CString → ℕ → World → World) → World → Bool × World
  pub fopen : CString → Mode → World → Sys File × World
  pub fread : File → ℕ → World → Read × World
  pub fwrite : File → CString → World → Written × World
  pub fclose : File → World → Sys (Unit {0}) × World
