-- ===== src/Binary.antt =====
-- src/gtirb_pprinter/ElfBinaryPrinter.cpp: the command line for the compiler, and `link`. The file
-- system and the compiler are arguments.
pub mod Libraries
pub mod Linking
pub mod Store
pub mod Search
use gtirb_pprinter.Prelude.{
  ℕ, zero, suc, ◌==◌, if◌then◌else◌, Bool, true, false, not, ◌&&◌, ◌||◌, Text, codes, Option, none,
  some, List, [], ◌∷◌, ◌++◌, concat_map, map, is_empty, eq_text,
}
use gtirb_pprinter.Prelude.Int.{ℤ, pos, negsuc}
use gtirb_pprinter.Prelude.Result.{Output, Fault, ok, fault}
use gtirb_pprinter.Gtirb.{Module}
use gtirb_pprinter.Printer.{table}

-- the text after a prefix
abbrev pub strip : Text → Text → Option Text
strip [] s = some s
strip (c ∷ t) [] = none
strip (c ∷ t) (d ∷ s) = if c == d then strip t s else none

-- the text before the last `.so`: the group of the regular expression is greedy
unfoldable pub before_last_so : Text → Option Text
before_last_so [] = none
before_last_so (c ∷ s) = elim (before_last_so s) [
  | some t ↦ some (c ∷ t)
  | none ↦ elim (strip (codes ".so") (c ∷ s)) [ none ↦ none | some rest ↦ some [] ]
]

-- `.` matches no line terminator
abbrev pub one_line : Text → Bool
one_line [] = true
one_line (c ∷ s) = not (c == 10 || c == 13) && one_line s

-- a match of `^lib(.*)\.so.*`
unfoldable pub get_infix_library_name : Text → Option Text
unfolding before_last_so
get_infix_library_name library = elim (strip (codes "lib") library) [
  | none ↦ none
  | some rest ↦ if one_line library then before_last_so rest else none
]

pub record FileSystem : Type 0 where
  pub append : Text → Text → Text
  pub is_symlink : Text → Bool
  pub read_symlink : Text → Text
  pub is_regular_file : Text → Bool

module _ (fs : FileSystem) where
  open fs use {is_symlink, read_symlink, is_regular_file}

  -- `while (is_symlink(path)) path = read_symlink(path)`; `none` is fuel that ran out
  unfoldable pub resolve : ℕ → Text → Option Text
  resolve zero path = none
  resolve (suc f) path =
      let rest = resolve f (read_symlink path) in if is_symlink path then rest else some path

  -- `none` is a chain of links longer than the fuel
  unfoldable pub find_library : ℕ → Text → List Text → Option (Option Text)
  unfolding resolve
  find_library fuel library [] = some none
  find_library fuel library (path ∷ paths) =
      let file = fs.append path library in
      let rest = find_library fuel library paths in
      elim (resolve fuel file) [
        | none ↦ none
        | some target ↦ if is_regular_file target then some (some file) else rest
      ]

abbrev pub paths_of : List Module → List Text
paths_of = concat_map (λ (m : Module). table m.library_paths)

abbrev pub libraries_of : List Module → List Text
libraries_of = concat_map (λ (m : Module). table m.libraries)

-- the argument for a library; one that is not found is reported and left out
library_args : FileSystem → ℕ → List Text → Text → Option (List Text)
library_args fs fuel paths library = elim (get_infix_library_name library) [
  | some name ↦ some ((codes "-l" ++ name) ∷ [])
  | none ↦ elim (find_library fs fuel library paths) [
    | none ↦ none
    | some none ↦ some []
    | some (some location) ↦ some (location ∷ [])
  ]
]

all_library_args : FileSystem → ℕ → List Text → List Text → Option (List Text)
unfolding library_args
all_library_args fs fuel paths [] = some []
all_library_args fs fuel paths (l ∷ ls) = elim (library_args fs fuel paths l) [
  | none ↦ none
  | some args ↦ elim (all_library_args fs fuel paths ls) [
    | none ↦ none
    | some rest ↦ some (args ++ rest)
  ]
]

abbrev pub path_args : List Text → List Text
path_args = concat_map (λ p. (codes "-L" ++ p) ∷ (codes "-Wl,-rpath," ++ p) ∷ [])

unfoldable pub build_compiler_args :
    FileSystem → ℕ → Text → List Text → List Text → List Text → List Module → Option (List Text)
unfolding all_library_args
build_compiler_args fs fuel output asm_paths extra user_paths modules =
    elim (all_library_args fs fuel (user_paths ++ paths_of modules) (libraries_of modules)) [
      | none ↦ none
      | some libs ↦ some (
          codes "-o" ∷ output ∷ asm_paths
          ++ (extra
              ++ (libs ++ (map (λ p. codes "-L" ++ p) user_paths ++ path_args (paths_of modules)))))
    ]

-- the files of the temporary directory, by their names
abbrev pub Store : Type 0
Store = List (Text × Text)

unfoldable pub erase_file : Text → Store → Store
erase_file name [] = []
erase_file name ((n, t) ∷ files) =
    let rest = erase_file name files in if eq_text n name then rest else (n, t) ∷ rest

unfoldable pub write_file : Text → Text → Store → Store
write_file name text files = (name, text) ∷ erase_file name files

-- A `TempFile`: what `mkstemps` calls it, and whether the stream opens.
pub record TempFile : Type 0 where
  pub name : Text
  pub is_open : Bool

-- `std::vector<TempFile> tempFiles(n)`: an empty file for each module
unfoldable pub create_files : List TempFile → Store → Store
create_files [] files = files
create_files (t ∷ ts) files = create_files ts (write_file t.name [] files)

-- the destructors of the temporary files
unfoldable pub remove_files : List TempFile → Store → Store
remove_files [] files = files
remove_files (t ∷ ts) files = remove_files ts (erase_file t.name files)

-- What the loop over the modules ends with: a fault of a printer, a file that is not open, or all modules
-- written.
pub data Written : Type 0 where
  faulted : Fault → Written
  not_open : Store → Written
  written : Store → Written

-- `link` over the modules that are left, each with its file: there are as many files as modules.
abbrev write_one : TempFile → Output → Store → (Store → Written) → Written
write_one t (fault e) files next = faulted e
write_one t (ok text) files next = next (write_file t.name text files)

unfoldable pub write_modules : (Module → Output) → List (TempFile × Module) → Store → Written
write_modules print [] files = written files
write_modules print ((t, m) ∷ rest) files =
    if t.is_open then write_one t (print m) files (write_modules print rest) else not_open files

-- a call of the compiler, with the files that are there when it is made
pub record Call : Type 0 where
  pub compiler : Text
  pub arguments : List Text
  pub seen : Store

-- How `link` ends: with the fault of a printer, or with a status, after at most one call; what is left is
-- the temporary directory.
pub data Linked : Type 0 where
  crashed : Fault → Linked
  returned : ℤ → Option Call → Store → Linked

abbrev pub names_of : List (TempFile × Module) → List Text
names_of = map (λ (e : TempFile × Module). e.0.name)

abbrev pub files_of : List (TempFile × Module) → List TempFile
files_of = map (λ (e : TempFile × Module). e.0)

abbrev pub modules_of : List (TempFile × Module) → List Module
modules_of = map (λ (e : TempFile × Module). e.1)

-- What is around `link`: the file system, the compiler that `search_path` finds, empty if it finds nothing,
-- and, of a call, its exit status and what it leaves in the temporary directory.
pub record Toolchain : Type 0 where
  pub file_system : FileSystem
  pub link_fuel : ℕ
  pub compiler : Text
  pub system : Call → ℕ
  pub writes : Call → Store

call_compiler : Toolchain → Option (List Text) → List TempFile → Store → Option Linked
call_compiler tools none temps files = none
call_compiler tools (some args) temps files =
    let call : Call = record { compiler = tools.compiler; arguments = args; seen = files } in
    some (returned (pos (tools.system call)) (some call) (remove_files temps (tools.writes call)))

after_writing :
    Toolchain → Text → List Text → List Text → List (TempFile × Module) → Written → Option Linked
unfolding call_compiler
after_writing tools output extra user_paths temps (faulted e) = some (crashed e)
after_writing tools output extra user_paths temps (not_open files) =
    some (returned (negsuc 0) none (remove_files (files_of temps) files))
after_writing tools output extra user_paths temps (written files) =
    if is_empty tools.compiler
    then some (returned (negsuc 0) none (remove_files (files_of temps) files))
    else call_compiler tools
        (build_compiler_args tools.file_system tools.link_fuel output (names_of temps) extra
          user_paths (modules_of temps))
        (files_of temps) files

-- `none` is a chain of symbolic links longer than the fuel.
unfoldable pub link :
    Toolchain
    → (Module → Output)
    → Text
    → List Text
    → List Text
    → List (TempFile × Module)
    → Store
    → Option Linked
unfolding after_writing
link tools print output extra user_paths temps files =
    after_writing tools output extra user_paths temps
      (write_modules print temps (create_files (files_of temps) files))
