-- ===== src/Error.antt =====
-- usbg_error.c and the enum usbg_error of usbg.h: the error codes, the translation of errno
-- values, and the texts for the user.
pub mod Laws
use Prim.Native.String.{String}
use libusbgx.Base.{ℕ, Bool, ◌||◌, ◌==◌, if◌then◌else◌}
use libusbgx.Base.Int.{ℤ, pos, negsuc}

pub data UsbgError : Type 0 where
  success no_mem no_access invalid_param not_found io exist no_dev busy not_supported path_too_long
        invalid_format missing_tag invalid_type invalid_value not_empty other_error :
      UsbgError

-- The value of the enumerator: `negsuc n` is -(n + 1).
unfoldable pub error_code : UsbgError → ℤ
error_code success = pos 0
error_code no_mem = negsuc 0
error_code no_access = negsuc 1
error_code invalid_param = negsuc 2
error_code not_found = negsuc 3
error_code io = negsuc 4
error_code exist = negsuc 5
error_code no_dev = negsuc 6
error_code busy = negsuc 7
error_code not_supported = negsuc 8
error_code path_too_long = negsuc 9
error_code invalid_format = negsuc 10
error_code missing_tag = negsuc 11
error_code invalid_type = negsuc 12
error_code invalid_value = negsuc 13
error_code not_empty = negsuc 14
error_code other_error = negsuc 98

-- The errno values of Linux that the library tells apart.
abbrev pub eperm : ℕ
eperm = 1

abbrev pub enoent : ℕ
enoent = 2

abbrev pub eio : ℕ
eio = 5

abbrev pub enomem : ℕ
enomem = 12

abbrev pub eacces : ℕ
eacces = 13

abbrev pub ebusy : ℕ
ebusy = 16

abbrev pub eexist : ℕ
eexist = 17

abbrev pub enodev : ℕ
enodev = 19

abbrev pub enotdir : ℕ
enotdir = 20

abbrev pub einval : ℕ
einval = 22

abbrev pub erofs : ℕ
erofs = 30

abbrev pub erange : ℕ
erange = 34

abbrev pub enotempty : ℕ
enotempty = 39

-- `usbg_translate_error` at a value that is not negative, as errno is.
translate_errno : ℕ → UsbgError
translate_errno n =
    if n == enomem
    then no_mem
    else if n == eacces || n == erofs || n == eperm
    then no_access
    else if n == enoent || n == enotdir
    then not_found
    else if n == erange || n == einval
    then invalid_param
    else if n == eio
    then io
    else if n == eexist
    then exist
    else if n == enodev
    then no_dev
    else if n == ebusy
    then busy
    else if n == enotempty
    then not_empty
    else other_error

-- `usbg_translate_error`. Of the negative values it knows USBG_ERROR_INVALID_PARAM, -3.
unfoldable pub translate_error : ℤ → UsbgError
unfolding translate_errno
translate_error (pos n) = translate_errno n
translate_error (negsuc n) = if n == 2 then invalid_param else other_error

-- `usbg_error_name`
unfoldable pub error_name : UsbgError → String
error_name success = "USBG_SUCCESS"
error_name no_mem = "USBG_ERROR_NO_MEM"
error_name no_access = "USBG_ERROR_NO_ACCESS"
error_name invalid_param = "USBG_ERROR_INVALID_PARAM"
error_name not_found = "USBG_ERROR_NOT_FOUND"
error_name io = "USBG_ERROR_IO"
error_name exist = "USBG_ERROR_EXIST"
error_name no_dev = "USBG_ERROR_NO_DEV"
error_name busy = "USBG_ERROR_BUSY"
error_name not_supported = "USBG_ERROR_NOT_SUPPORTED"
error_name path_too_long = "USBG_ERROR_PATH_TOO_LONG"
error_name invalid_format = "USBG_ERROR_INVALID_FORMAT"
error_name missing_tag = "USBG_ERROR_MISSING_TAG"
error_name invalid_type = "USBG_ERROR_INVALID_TYPE"
error_name invalid_value = "USBG_ERROR_INVALID_VALUE"
error_name not_empty = "USBG_ERROR_NOT_EMPTY"
error_name other_error = "USBG_ERROR_OTHER_ERROR"

-- `usbg_strerror`
unfoldable pub strerror : UsbgError → String
strerror success = "Success"
strerror no_mem = "Insufficient memory"
strerror no_access = "Access denied (insufficient permissions)"
strerror invalid_param = "Invalid parameter"
strerror not_found = "Not found (file or directory removed)"
strerror io = "Input/output error"
strerror exist = "Already exist"
strerror no_dev = "No such device (illegal device name)"
strerror busy = "Busy (gadget enabled)"
strerror not_supported = "Function not supported"
strerror path_too_long = "Created path was too long to process it."
strerror invalid_format = "Given file has incompatible format."
strerror missing_tag = "One of mandatory tags is missing."
strerror invalid_type = "One of attributes has incompatible type."
strerror invalid_value = "Incorrect value provided as attribute."
strerror not_empty = "Entity is not empty."
strerror other_error = "Other error"
