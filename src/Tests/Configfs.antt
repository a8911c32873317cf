-- ===== src/Tests/Configfs.antt =====
-- A file system in memory to run the model on: entries by path, in which a new directory gets the
-- files and directories that configfs puts into a gadget's.
use libusbgx.Base.{
  ℕ, Bool, true, false, ◌||◌, List, [], ◌∷◌, ◌++◌, Option, none, some, ◌==◌, if◌then◌else◌, take,
  length,
}
use libusbgx.CStr.{CString, c, str_eq}
use libusbgx.Error.{enoent, eexist}
use libusbgx.Os.{Os, Sys, done, errno, Dirent, reading, writing}

pub data Node : Type 0 where
  dir : Node
  file : CString → Node
  link : CString → Node

pub record Disk : Type 0 where
  pub nodes : List (CString × Node)
  pub memory : Bool

-- Without empty components.
unfoldable pub norm : CString → CString
norm [] = []
norm (x ∷ s) =
    let rest = norm s in
    if x == b'/'
    then (elim rest [ [] ↦ [] | y ∷ r ↦ if y == b'/' then y ∷ r else x ∷ y ∷ r ])
    else x ∷ rest

unfoldable pub strip : CString → CString → Option CString
strip [] s = some s
strip (x ∷ p) [] = none
strip (x ∷ p) (y ∷ s) = let rest = strip p s in if x == y then rest else none

unfoldable pub has_slash : CString → Bool
has_slash [] = false
has_slash (x ∷ s) = x == b'/' || has_slash s

unfoldable pub find : CString → List (CString × Node) → Option Node
find p [] = none
find p ((q, n) ∷ ns) = let rest = find p ns in if str_eq p q then some n else rest

unfoldable pub put : CString → Node → List (CString × Node) → List (CString × Node)
put p n [] = (p, n) ∷ []
put p n ((q, o) ∷ ns) = let rest = put p n ns in if str_eq p q then (p, n) ∷ ns else (q, o) ∷ rest

abbrev under : CString → CString → Bool
under p q = str_eq p q || (elim (strip (p ++ b'/' ∷ []) q) [ none ↦ false | some _ ↦ true ])

unfoldable pub drop_tree : CString → List (CString × Node) → List (CString × Node)
unfolding strip
drop_tree p [] = []
drop_tree p ((q, n) ∷ ns) = let rest = drop_tree p ns in if under p q then rest else (q, n) ∷ rest

abbrev is_link : Node → Bool
is_link (link t) = true
is_link _ = false

unfoldable pub children : CString → List (CString × Node) → List Dirent
unfolding strip has_slash
children p [] = []
children p ((q, n) ∷ ns) =
    let rest = children p ns in
    elim (strip (p ++ b'/' ∷ []) q) [
      | none ↦ rest
      | some name ↦
          if has_slash name then rest else record { name = name; is_link = is_link n } ∷ rest
    ]

abbrev pub sub : CString → CString → CString
sub p name = p ++ b'/' ∷ name

abbrev populated : CString → List (CString × Node) → List (CString × Node)
populated p ns =
    ns
    ++ (p, dir)
      ∷ (sub p (c "UDC"), file (b'\n' ∷ []))
      ∷ (sub p (c "functions"), dir)
      ∷ (sub p (c "configs"), dir)
      ∷ (sub p (c "strings"), dir)
      ∷ (sub p (c "os_desc"), dir)
      ∷ []

abbrev pub with_nodes : Disk → List (CString × Node) → Disk
with_nodes d ns = record d { nodes = ns }

abbrev if_there : {A : Type 0} → CString → Disk → A → Disk → Sys A × Disk
if_there p d a d' = elim (find (norm p) d.nodes) [
  | none ↦ (errno enoent, d)
  | some _ ↦ (done a, d')
]

abbrev pub content : Option Node → CString
content (some (file s)) = s
content _ = []

abbrev target : Option Node → CString
target (some (link s)) = s
target _ = []

-- The entries of a directory, all on the level 1.
abbrev visit_each : CString → (CString → ℕ → Disk → Disk) → List Dirent → Disk → Disk
visit_each p visit [] d = d
visit_each p visit (e ∷ es) d = visit_each p visit es (visit (sub p e.name) 1 d)

instance abbrev pub configfs : Os
configfs = record {
  World = Disk;
  File = CString;
  malloc = λ d. (d.memory, d);
  stack = λ d. [];
  opendir = λ p d. if_there p d tt d;
  mkdir = λ p d. elim (find (norm p) d.nodes) [
    | none ↦ (done tt, with_nodes d (populated (norm p) d.nodes))
    | some _ ↦ (errno eexist, d)
  ];
  rmdir = λ p d. if_there p d tt (with_nodes d (drop_tree (norm p) d.nodes));
  unlink = λ p d. if_there p d tt (with_nodes d (drop_tree (norm p) d.nodes));
  symlink = λ t p d. elim (find (norm p) d.nodes) [
    | none ↦ (done tt, with_nodes d (put (norm p) (link t) d.nodes))
    | some _ ↦ (errno eexist, d)
  ];
  readlink = λ p n d. if_there p d (take n (target (find (norm p) d.nodes))) d;
  scandir = λ p d. if_there p d (children (norm p) d.nodes) d;
  stat = λ p d. (elim (find (norm p) d.nodes) [ none ↦ false | some _ ↦ true ], d);
  remove = λ p d. if_there p d tt (with_nodes d (drop_tree (norm p) d.nodes));
  nftw = λ p visit d. elim (find (norm p) d.nodes) [
    | none ↦ (false, d)
    | some _ ↦ (true, visit p 0 (visit_each p visit (children (norm p) d.nodes) d))
  ];
  fopen = λ p mode d. elim mode [
    | reading ↦ if_there p d (norm p) d
    | writing ↦ (done (norm p), with_nodes d (put (norm p) (file []) d.nodes))
  ];
  fread = λ p n d. (record { bytes = take n (content (find p d.nodes)); error = false }, d);
  fwrite =
      λ p s d. (record { count = length s; error = none }, with_nodes d (put p (file s) d.nodes));
  fclose = λ p d. (done tt, d);
}

-- An empty configfs with one UDC.
abbrev pub start_disk : Disk
start_disk = record {
  nodes =
      (c "/cfg/usb_gadget", dir) ∷ (c "/sys/class/udc", dir) ∷ (c "/sys/class/udc/dummy", dir) ∷ [];
  memory = true;
}
