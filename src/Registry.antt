-- ===== src/Registry.antt =====
-- The registered factories, the default syntaxes and the class `PrettyPrinter`:
-- src/gtirb_pprinter/PrettyPrinter.cpp, with the factories and policies of IntelPrettyPrinter.cpp,
-- AttPrettyPrinter.cpp, AArch64PrettyPrinter.cpp and ElfPrettyPrinter.cpp.
pub mod Defaults
pub mod Moved
pub mod Policy
use gtirb_pprinter.Prelude.{
  ℕ, if◌then◌else◌, Bool, true, false, not, ◌&&◌, Text, codes, eq_text, contains, Option, none,
  some, List, [], ◌∷◌, ◌++◌, is_empty, map,
}
use gtirb_pprinter.Prelude.Result.{Result, Output, ok, fault, null, out_of_range, ◌>>=◌, deref}
use gtirb_pprinter.Capstone.{Capstone}
use gtirb_pprinter.Gtirb.{
  Module, FileFormat, undefined, coff, elf, pe, ida_pro_db32, ida_pro_db64, xcoff, macho, raw,
}
use gtirb_pprinter.Printer.{Arch, intel, att, aarch64, PrintingPolicy, create, insert_name}
use gtirb_pprinter.Blocks

abbrev pub Target : Type 0
Target = Text × Text

abbrev pub eq_target : Target → Target → Bool
eq_target (f, s) (g, t) = eq_text f g && eq_text s t

-- A factory is the class of its printers; `none` is an empty `shared_ptr`.
pub record Registry : Type 0 where
  pub factories : List (Target × Option Arch)
  pub syntaxes : List (Text × Text)

abbrev pub empty : Registry
empty = record { factories = []; syntaxes = [] }

-- `map[key] = value`, newest entry first
abbrev pub assign_factory : Target → Option Arch → Registry → Registry
assign_factory t f r = record r { factories = (t, f) ∷ r.factories }

unfoldable pub set_default_syntax : Text → Text → Registry → Registry
set_default_syntax format syntax r = record r { syntaxes = (format, syntax) ∷ r.syntaxes }

abbrev pub find_syntax : Text → List (Text × Text) → Option Text
find_syntax f [] = none
find_syntax f ((g, s) ∷ t) = if eq_text g f then some s else find_syntax f t

unfoldable pub get_default_syntax : Registry → Text → Option Text
get_default_syntax r format = find_syntax format r.syntaxes

abbrev pub find_factory : Target → List (Target × Option Arch) → Option (Option Arch)
find_factory t [] = none
find_factory t ((u, f) ∷ fs) = if eq_target u t then some f else find_factory t fs

-- One round of the two loops: the pointer is moved into the map, which leaves it empty.
pub register_one : Text → Text → Bool → Option Arch → Registry → Registry × Option Arch
register_one format syntax is_default f r =
    let r' = assign_factory (format, syntax) f r in
    (if is_default then set_default_syntax format syntax r' else r', none)

pub register_syntaxes : Text → List Text → Bool → Option Arch → Registry → Registry × Option Arch
unfolding register_one
register_syntaxes format [] is_default f r = (r, f)
register_syntaxes format (s ∷ ss) is_default f r =
    let (r', f') = register_one format s is_default f r in
    register_syntaxes format ss is_default f' r'

pub register_formats :
    List Text → List Text → Bool → Option Arch → Registry → Registry × Option Arch
unfolding register_syntaxes
register_formats [] ss is_default f r = (r, f)
register_formats (g ∷ gs) ss is_default f r =
    let (r', f') = register_syntaxes g ss is_default f r in register_formats gs ss is_default f' r'

unfoldable pub register_printer : List Text → List Text → Arch → Bool → Registry → Registry
unfolding register_formats
register_printer formats syntaxes f is_default r =
    (register_formats formats syntaxes is_default (some f) r).0

unfoldable pub get_registered_targets : Registry → List Target
get_registered_targets r = map (λ (e : Target × Option Arch). e.0) r.factories

unfoldable pub get_module_file_format : FileFormat → Text
get_module_file_format undefined = codes "undefined"
get_module_file_format coff = codes "coff"
get_module_file_format elf = codes "elf"
get_module_file_format pe = codes "pe"
get_module_file_format ida_pro_db32 = codes "idb"
get_module_file_format ida_pro_db64 = codes "idb"
get_module_file_format xcoff = codes "xcoff"
get_module_file_format macho = codes "macho"
get_module_file_format raw = codes "raw"

-- the registrations that the three printers make when the program starts
abbrev pub register_class : Arch → Registry → Registry
register_class intel = register_printer (codes "elf" ∷ []) (codes "intel" ∷ []) intel true
register_class att = register_printer (codes "elf" ∷ []) (codes "att" ∷ []) att false
register_class aarch64 = register_printer (codes "elf" ∷ []) (codes "aarch64" ∷ []) aarch64 true

abbrev pub register_all : List Arch → Registry → Registry
register_all [] r = r
register_all (a ∷ as') r = register_all as' (register_class a r)

abbrev elf_skip_sections : List Text
elf_skip_sections =
    codes ".comment"
    ∷ codes ".plt"
    ∷ codes ".init"
    ∷ codes ".fini"
    ∷ codes ".got"
    ∷ codes ".plt.got"
    ∷ codes ".got.plt"
    ∷ codes ".plt.sec"
    ∷ codes ".eh_frame_hdr"
    ∷ []

abbrev elf_skip_functions : List Text
elf_skip_functions =
    codes "_start"
    ∷ codes "deregister_tm_clones"
    ∷ codes "register_tm_clones"
    ∷ codes "__do_global_dtors_aux"
    ∷ codes "frame_dummy"
    ∷ codes "__libc_csu_fini"
    ∷ codes "__libc_csu_init"
    ∷ codes "_dl_relocate_static_pie"
    ∷ []

elf_policy : List Text → PrintingPolicy
elf_policy skip = record {
  skip_sections = elf_skip_sections;
  skip_functions = skip;
  array_sections = codes ".init_array" ∷ codes ".fini_array" ∷ [];
  debug = false;
}

unfoldable pub default_printing_policy : Arch → PrintingPolicy
unfolding elf_policy
default_printing_policy intel = elf_policy elf_skip_functions
default_printing_policy att = elf_policy elf_skip_functions
default_printing_policy aarch64 = elf_policy (elf_skip_functions ++ (codes "call_weak_fn" ∷ []))

-- `PrettyPrinter`
pub record PrettyPrinter : Type 0 where
  pub skip_funcs : List Text
  pub keep_funcs : List Text
  pub format : Text
  pub syntax : Text
  pub debug : Bool

unfoldable pub set_target : Target → PrettyPrinter → PrettyPrinter
set_target (f, s) pp = record pp { format = f; syntax = s }

abbrev pub value_or_empty : Option Text → Text
value_or_empty none = []
value_or_empty (some s) = s

unfoldable pub set_format : Registry → Text → PrettyPrinter → PrettyPrinter
unfolding set_target
set_format r f pp = set_target (f, value_or_empty (get_default_syntax r f)) pp

unfoldable pub set_debug : Bool → PrettyPrinter → PrettyPrinter
set_debug b pp = record pp { debug = b }

unfoldable pub get_debug : PrettyPrinter → Bool
get_debug pp = pp.debug

unfoldable pub skip_function : Text → PrettyPrinter → PrettyPrinter
skip_function f pp = record pp { skip_funcs = insert_name f pp.skip_funcs }

unfoldable pub keep_function : Text → PrettyPrinter → PrettyPrinter
keep_function f pp = record pp { keep_funcs = insert_name f pp.keep_funcs }

pub insert_all : List Text → List Text → List Text
insert_all [] s = s
insert_all (f ∷ fs) s = insert_all fs (insert_name f s)

pub erase : Text → List Text → List Text
erase f [] = []
erase f (g ∷ gs) = let rest = erase f gs in if eq_text g f then rest else g ∷ rest

pub erase_all : List Text → List Text → List Text
unfolding erase
erase_all [] s = s
erase_all (f ∷ fs) s = erase_all fs (erase f s)

-- the policy that `print` hands to the printer
unfoldable pub configure : PrettyPrinter → PrintingPolicy → PrintingPolicy
unfolding insert_all erase_all
configure pp policy = record policy {
  debug = pp.debug;
  skip_functions = erase_all pp.keep_funcs (insert_all pp.skip_funcs policy.skip_functions);
}

unfoldable pub target_for : Registry → PrettyPrinter → Module → Target
target_for r pp m =
    let f = get_module_file_format m.file_format in
    if is_empty pp.format
    then (f, value_or_empty (get_default_syntax r f))
    else (pp.format, pp.syntax)

-- `getFactories().at(target)`
unfoldable pub factory_at : Registry → Target → Result (Option Arch)
factory_at r t = elim (find_factory t r.factories) [ none ↦ fault out_of_range | some f ↦ ok f ]

unfoldable pub print : Registry → Capstone → PrettyPrinter → Module → Output
unfolding factory_at
print r cs pp m = do
  slot ← factory_at r (target_for r pp m)
  factory ← deref slot
  Blocks.print (create factory cs m (configure pp (default_printing_policy factory)))
