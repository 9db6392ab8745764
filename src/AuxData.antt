-- ===== src/AuxData.antt =====
-- The AuxData tables of include/gtirb_pprinter/AuxDataSchema.hpp and `registerAuxDataTypes` of
-- src/gtirb_pprinter/PrettyPrinter.cpp. The schemas of GTIRB itself and what registration does are not in
-- the repository: they are arguments.
pub mod Registered
use gtirb_pprinter.Prelude.{ℕ, Text, codes, Option, none, some, List, [], ◌∷◌, ◌≡◌, ◌≢◌, map}

-- the C++ types of which the tables are made
pub data AuxType : Type 0 where
  uuid addr uint64 int64 string offset : AuxType
  pair : AuxType → AuxType → AuxType
  triple : AuxType → AuxType → AuxType → AuxType
  vector : AuxType → AuxType
  mapping : AuxType → AuxType → AuxType

-- the schemas that the repository declares
pub data OwnSchema : Type 0 where
  encodings symbolic_operand_info elf_section_properties cfi_directives libraries library_paths :
      OwnSchema

unfoldable pub own_name : OwnSchema → Text
own_name encodings = codes "encodings"
own_name symbolic_operand_info = codes "symbolicOperandInfo"
own_name elf_section_properties = codes "elfSectionProperties"
own_name cfi_directives = codes "cfiDirectives"
own_name libraries = codes "libraries"
own_name library_paths = codes "libraryPaths"

abbrev pub own_type : OwnSchema → AuxType
own_type encodings = mapping uuid string
own_type symbolic_operand_info = mapping addr (pair uint64 string)
own_type elf_section_properties = mapping uuid (pair uint64 uint64)
own_type cfi_directives = mapping offset (vector (triple string (vector int64) uuid))
own_type libraries = vector string
own_type library_paths = vector string

-- the schemas of GTIRB that are registered
pub data GivenSchema : Type 0 where
  comments function_entries function_blocks symbol_forwarding : GivenSchema

pub data Schema : Type 0 where
  given : GivenSchema → Schema
  own : OwnSchema → Schema

-- the names and the types of GTIRB's own schemas
pub record Sanctioned : Type 0 where
  pub name : GivenSchema → Text
  pub kind : GivenSchema → AuxType

abbrev pub schema_name : Sanctioned → Schema → Text
schema_name g (given s) = g.name s
schema_name g (own s) = own_name s

abbrev pub schema_type : Sanctioned → Schema → AuxType
schema_type g (given s) = g.kind s
schema_type g (own s) = own_type s

-- GTIRB's container of types: a name that is not there is found with its type once it is registered, to
-- register it again with its type leaves that, and the other names are found as before. What happens
-- to a name that is there with another type is left open.
pub record Container (C : Type 0) : Type 0 where
  pub register : C → Text → AuxType → C
  pub find : C → Text → Option AuxType
  pub find_new :
      (c : C) (n : Text) (t : AuxType) → find c n ≡ none → find (register c n t) n ≡ some t
  pub find_again :
      (c : C) (n : Text) (t : AuxType) → find c n ≡ some t → find (register c n t) n ≡ some t
  pub find_other : (c : C) (n m : Text) (t : AuxType) → n ≢ m → find (register c n t) m ≡ find c m

-- in the order of `registerAuxDataTypes`
abbrev pub all_schemas : List Schema
all_schemas =
    given comments
    ∷ given function_entries
    ∷ given function_blocks
    ∷ given symbol_forwarding
    ∷ own symbolic_operand_info
    ∷ own encodings
    ∷ own elf_section_properties
    ∷ own cfi_directives
    ∷ own libraries
    ∷ own library_paths
    ∷ []

module _ {C : Type 0} (k : Container C) (g : Sanctioned) where
  unfoldable pub register_each : C → List Schema → C
  register_each c [] = c
  register_each c (s ∷ ss) = register_each (k.register c (schema_name g s) (schema_type g s)) ss

  unfoldable pub register_aux_data_types : C → C
  unfolding register_each
  register_aux_data_types c = register_each c all_schemas
