-- ===== src/Tests/Video.antt =====
-- The theorems on video functions, GUIDs and the loops over lists at concrete inputs.
use libusbgx.Base.{◌≡◌, ◌≢◌, refl, true, false, [], ◌∷◌, none, some, arith}
use libusbgx.Base.Int.{pos}
use libusbgx.CStr.{c}
use libusbgx.Files.{write_buf}
use libusbgx.Funcs.Attrs.{Union}
use libusbgx.Funcs.Guid.{guid_fields, print_guid, write_guid}
use libusbgx.Funcs.Guid.RoundTrip.{write_guid-print_guid}
use libusbgx.Funcs.Luns.{lun_of}
use libusbgx.Funcs.Uvc.{set_config_attrs, create_dir, create_frame, format_path}
use libusbgx.Funcs.Values.{Kind}
use libusbgx.Funcs.Uvc.Dirs.{made, create_dir-made}
use libusbgx.Funcs.Uvc.Formats.{FormatUnion, set_format_attrs}
use libusbgx.Funcs.Uvc.Frames.{IsFormat, with_frame, create_frame-Post}
use libusbgx.Funcs.Uvc.Never.{set_config_attrs-never}
use libusbgx.Heap.{Function, Formats, Heap}
use libusbgx.Heap.Keeps.{mem_at}
use libusbgx.Heap.Monad.{update, returned, fault, gadget_at, state_at, function_at, ◌>>=◌}
use libusbgx.Heap.Post.{Post, Live}
use libusbgx.Heap.Returned.{IfReturned}
use libusbgx.Objects.{no_frames}
use libusbgx.Os.Io
use libusbgx.Query.Walk.{first_of_list, next_of_list, walk}
use libusbgx.Query.Walk.Order.{walk-first_of_list}
use libusbgx.Tests.Configfs.{configfs, Disk}
use libusbgx.Tests.Structures.{state, gadget, bare_gadget}
use libusbgx.Tests.Structures

abbrev mjpeg : Formats
mjpeg = record no_frames { frames_initiated = true }

-- A camera without frames.
abbrev camera : Function
camera = record {
  parent = 2;
  name = c "uvc.0";
  path = c "/f";
  luns = [];
  luns_initiated = false;
  formats = mjpeg ∷ mjpeg ∷ [];
  formats_initiated = true;
  instance_name = c "0";
  label = none;
  type = 15;
}

abbrev heap : Heap
heap = record Structures.heap { functions = update (λ _. none) 6 (some camera) }

abbrev disk : Disk
disk = record { nodes = []; memory = true }

camera-Live : Live function_at heap 6 camera
camera-Live = record { ne_null = ground arith; holds = refl }

mjpeg-IsFormat : IsFormat heap 6 camera 0 mjpeg
mjpeg-IsFormat = record { live = camera-Live; entry = refl; sized = refl }

write_guid-print_guid_example :
    write_guid
      (c "/f")
      (c "uvc.0")
      (c "guidFormat")
      (print_guid guid_fields
        (b'Y' ∷ b'U' ∷ b'Y' ∷ b'2' ∷ 0 ∷ 0 ∷ 16 ∷ 0 ∷ 128 ∷ 0 ∷ 0 ∷ 170 ∷ 0 ∷ 56 ∷ 155 ∷ 113 ∷ []))
      disk
    ≡ Io.◌>>=◌
        (write_buf (c "/f") (c "uvc.0") (c "guidFormat") (
          b'Y' ∷ b'U' ∷ b'Y' ∷ b'2' ∷ 0 ∷ 0 ∷ 16 ∷ 0 ∷ 128 ∷ 0 ∷ 0 ∷ 170 ∷ 0 ∷ 56 ∷ 155 ∷ 113 ∷ []))
        (λ n. Io.return tt)
        disk
write_guid-print_guid_example =
    write_guid-print_guid (c "/f") (c "uvc.0") (c "guidFormat")
      (b'Y' ∷ b'U' ∷ b'Y' ∷ b'2' ∷ 0 ∷ 0 ∷ 16 ∷ 0 ∷ 128 ∷ 0 ∷ 0 ∷ 170 ∷ 0 ∷ 56 ∷ 155 ∷ 113 ∷ [])
      disk refl (ground arith)

-- Attributes that were never written.
abbrev no_attr : Union
no_attr Kind.dec = pos 0
no_attr Kind.boolean = false
no_attr Kind.text = none
no_attr Kind.ether = []
no_attr Kind.dev = (0, 0)
no_attr Kind.report = []

abbrev no_format_attr : FormatUnion
no_format_attr = record { number_val = pos 0; text_val = none }

set_config_attrs-never_example :
    IfReturned (λ _. ⊥) (set_config_attrs 6 (λ i. no_attr) (mem_at heap disk))
    × (set_format_attrs 6 (c "mjpeg/m") (λ i. no_format_attr) (mem_at heap disk) ≡ fault)
unfolding format_path
set_config_attrs-never_example =
    set_config_attrs-never (mem_at heap disk) (λ i. no_attr) (c "mjpeg/m") (λ i. no_format_attr)
      camera-Live refl

create_frame-Post_example :
    Post
      (λ _ n. (lun_of mjpeg.frames 1 ≢ true) × (n.heap ≡ with_frame mjpeg-IsFormat 1))
      (λ _ n. n.heap ≡ heap)
      (create_frame 6 (c "mjpeg/m") 0 (pos 1) none (mem_at heap disk))
create_frame-Post_example =
    create_frame-Post mjpeg-IsFormat (c "mjpeg/m") 1 none disk (ground arith)

walk-first_of_list_example :
    (first_of_list state_at (λ s. s.gadgets) 1
        >>= walk (next_of_list gadget_at (λ g. g.parent) state_at (λ s. s.gadgets)) 3)
      (mem_at heap disk)
    ≡ returned (some (2 ∷ 8 ∷ [])) (mem_at heap disk)
walk-first_of_list_example =
    walk-first_of_list gadget_at (λ g. g.parent) state_at (λ s. s.gadgets) (mem_at heap disk)
      (record { ne_null = ground arith; holds = refl }) ((ground arith, tt), (tt, tt)) 3
      (
        (gadget, record { ne_null = ground arith; holds = refl }, refl),
        ((bare_gadget, record { ne_null = ground arith; holds = refl }, refl), tt),
      )
      (ground arith)

create_dir-made_example : create_dir (c "/f/uvc.0/") disk ≡ made (c "/f") (c "uvc.0" ∷ []) disk
create_dir-made_example =
    create_dir-made (c "f") (c "uvc.0" ∷ []) disk (ground arith) (ground arith) refl
