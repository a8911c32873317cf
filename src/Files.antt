-- ===== src/Files.antt =====
-- usbg_common.c: reading and writing attribute files, removing files and directories.
pub mod Laws
use libusbgx.Base.{
  ℕ, suc, ◌+◌, ◌-◌, Bool, true, false, not, ◌&&◌, ◌||◌, List, [], ◌∷◌, ◌++◌, Option, none, some,
  length, take, ltb, leb, ◌==◌, if◌then◌else◌,
}
use libusbgx.Base.Int.{ℤ, pos, negsuc}
use libusbgx.CStr.{CString, c, str_eq}
use libusbgx.Error.{UsbgError, path_too_long, invalid_param, no_mem, translate_error, enoent}
use libusbgx.Error
use libusbgx.Num.{Parsed, strtol, to_int, print_int, print_hex, to_unsigned}
use libusbgx.Os.{Os, Sys, done, errno, Dirent, Mode, reading, writing, Written, Read}
use libusbgx.Os.Io.{
  Io, Res, ok, err, return, fail, from_res, call, ignore, allocate, check, ◌>>=◌, ◌>>◌,
}

abbrev pub max_path_length : ℕ
max_path_length = 4096

abbrev pub max_str_length : ℕ
max_str_length = 256

abbrev pub max_file_size : ℕ
max_file_size = 4096

-- `snprintf` of "%s/%s".
abbrev pub join : CString → CString → CString
join a b = a ++ b'/' ∷ b

-- `nmb < sizeof(buf)` for a buffer of USBG_MAX_PATH_LENGTH bytes.
abbrev pub fits : CString → Bool
fits p = ltb (length p) max_path_length

-- The text in front of the first such byte.
unfoldable pub cut : ℕ → CString → CString
cut b [] = []
cut b (x ∷ s) = let rest = cut b s in if x == b then [] else x ∷ rest

-- `file_select`, the filter of most calls of `scandir`, and `bindings_select`.
abbrev pub file_select : Dirent → Bool
file_select d = not (str_eq d.name (c ".")) && not (str_eq d.name (c ".."))

abbrev pub bindings_select : Dirent → Bool
bindings_select d = d.is_link

unfoldable pub select : (Dirent → Bool) → List Dirent → List CString
select keep [] = []
select keep (d ∷ ds) = let rest = select keep ds in if keep d then d.name ∷ rest else rest

-- `ferror` after a short read, and what is reported for a short write.
abbrev read_error : ℕ → Read → Res CString
read_error len r = if ltb (length r.bytes) len && r.error then err Error.io else ok r.bytes

abbrev write_error : CString → Written → Res ℕ
write_error buf w =
    if ltb w.count (length buf)
    then elim w.error [ some e ↦ err (translate_error (pos e)) | none ↦ err Error.io ]
    else ok w.count

-- The C string that the buffer holds after it was terminated and cut at the newline.
abbrev string_in : ℕ → CString → CString
string_in len bytes = cut b'\n' (cut 0 (take (len - 1) bytes))

abbrev pub is_nonzero : ℤ → Bool
is_nonzero (pos n) = not (n == 0)
is_nonzero (negsuc n) = true

module _ ⦃os : Os⦄ where
  unfoldable pub scandir : (Dirent → Bool) → CString → Io (List CString)
  unfolding select
  scandir keep path = do ds ← call (os.scandir path); return (select keep ds)

  -- The bytes read, at most `len`.
  read_open : os.File → ℕ → Io CString
  read_open fp len w = let (r, w') = os.fread fp len w in (read_error len r, (os.fclose fp w').1)

  unfoldable pub read_buf_limited : CString → CString → CString → ℕ → Io CString
  unfolding read_open
  read_buf_limited path name file len = do
    let p = join path (join name file)
    check (fits p) path_too_long
    fp ← call (os.fopen p reading)
    read_open fp len

  unfoldable pub read_buf : CString → CString → CString → Io CString
  unfolding read_buf_limited
  read_buf path name file = read_buf_limited path name file max_str_length

  -- `strtol` runs over the buffer, which is not terminated: the file's bytes, and behind them what
  -- the stack held before. `if (!pos)` never holds, as `strtol` always sets `pos`.
  unfoldable pub read_int : CString → CString → CString → ℕ → Io ℤ
  unfolding read_buf
  read_int path name file base w =
      (do buf ← read_buf path name file; return (to_int (strtol base (buf ++ os.stack w)).value)) w

  abbrev pub read_dec : CString → CString → CString → Io ℤ
  read_dec path name file = read_int path name file 10

  abbrev pub read_hex : CString → CString → CString → Io ℤ
  read_hex path name file = read_int path name file 16

  unfoldable pub read_bool : CString → CString → CString → Io Bool
  unfolding read_int
  read_bool path name file = do buf ← read_dec path name file; return (is_nonzero buf)

  unfoldable pub read_string_limited : CString → CString → CString → ℕ → Io CString
  unfolding read_buf_limited cut
  read_string_limited path name file len = do
    bytes ← read_buf_limited path name file len
    return (string_in len bytes)

  unfoldable pub read_string : CString → CString → CString → Io CString
  unfolding read_string_limited
  read_string path name file = read_string_limited path name file max_str_length

  unfoldable pub read_string_alloc : CString → CString → CString → Io CString
  unfolding read_string_limited
  read_string_alloc path name file = do
    buf ← read_string_limited path name file max_file_size
    allocate no_mem
    return buf

  -- A short read is returned as it is, a count that is not negative.
  unfoldable pub read_buf_alloc : CString → CString → CString → ℕ → Io (Option CString)
  unfolding read_buf_limited
  read_buf_alloc path name file len = do
    buf ← read_buf_limited path name file len
    if not (length buf == len) then return none else do allocate no_mem; return (some buf)

  -- An error of `fclose` goes before one of `fwrite`.
  close_written : os.File → Res ℕ → Io ℕ
  close_written fp r = do call (os.fclose fp); from_res r

  write_open : os.File → CString → Io ℕ
  unfolding close_written
  write_open fp buf w = let (r, w') = os.fwrite fp buf w in close_written fp (write_error buf r) w'

  -- The number of bytes written.
  unfoldable pub write_buf : CString → CString → CString → CString → Io ℕ
  unfolding write_open
  write_buf path name file buf = do
    let p = join path (join name file)
    check (fits p) path_too_long
    fp ← call (os.fopen p writing)
    write_open fp buf

  -- The text that `snprintf` makes of the value.
  unfoldable pub write_int : CString → CString → CString → CString → Io (Unit {0})
  unfolding write_buf
  write_int path name file text = do
    check (ltb (length text) max_str_length) invalid_param
    n ← write_buf path name file text
    return tt

  newline : CString → CString
  newline s = s ++ b'\n' ∷ []

  unfoldable pub write_dec : CString → CString → CString → ℤ → Io (Unit {0})
  unfolding write_int newline
  write_dec path name file value = write_int path name file (newline (print_int value))

  -- "0x%x", "0x%04x" and "0x%02x": the width is 0, 4 or 2.
  unfoldable pub write_hex : ℕ → CString → CString → CString → ℕ → Io (Unit {0})
  unfolding write_int newline
  write_hex width path name file value =
      write_int path name file (newline (c "0x" ++ print_hex width value))

  unfoldable pub write_bool : CString → CString → CString → Bool → Io (Unit {0})
  unfolding write_dec
  write_bool path name file value = write_dec path name file (pos (if value then 1 else 0))

  -- `none` is a NULL text.
  unfoldable pub write_string : CString → CString → CString → Option CString → Io (Unit {0})
  unfolding write_buf
  write_string path name file none = fail invalid_param
  write_string path name file (some buf) = do n ← write_buf path name file buf; return tt

  unfoldable pub rm_file : CString → CString → Io (Unit {0})
  rm_file path name = do
    check (fits (join path name)) path_too_long
    call (os.unlink (join path name))

  unfoldable pub rm_dir : CString → CString → Io (Unit {0})
  rm_dir path name = do
    check (fits (join path name)) path_too_long
    call (os.rmdir (join path name))

  -- The first failure ends the removals.
  rm_each : CString → List CString → Io (Unit {0})
  unfolding rm_dir
  rm_each path [] = return tt
  rm_each path (n ∷ ns) = do rm_dir path n; rm_each path ns

  unfoldable pub rm_all_dirs : CString → Io (Unit {0})
  unfolding scandir rm_each
  rm_all_dirs path = do ns ← scandir file_select path; rm_each path ns

  -- The directory is made if it is not there.
  made : CString → Sys (Unit {0}) → Io (Unit {0})
  made path (done _) = return tt
  made path (errno n) = if n == enoent then call (os.mkdir path) else fail (translate_error (pos n))

  unfoldable pub check_dir : CString → Io (Unit {0})
  unfolding made
  check_dir path w = let (r, w') = os.opendir path w in made path r w'
