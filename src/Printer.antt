-- ===== src/Printer.antt =====
-- The state of `PrettyPrinterBase` (include/gtirb_pprinter/PrettyPrinter.hpp), its construction,
-- and its queries on sections and functions (src/gtirb_pprinter/PrettyPrinter.cpp). The subclasses
-- are the constructors of `Arch`; what they override is by clauses on it.
pub mod Functions
use gtirb_pprinter.Prelude.{
  ℕ, zero, suc, ◌<◌, ltb, leb, ◌==◌, if◌then◌else◌, Bool, true, false, not, ◌&&◌, ◌||◌, Text, codes,
  contains, Option, none, some, List, [], ◌∷◌, ◌++◌, is_empty, head_of,
}
use gtirb_pprinter.Prelude.Number.{hex}
use gtirb_pprinter.Capstone.{Capstone}
use gtirb_pprinter.Gtirb.{Symbol, Section, CodeBlock, Module}

pub data Arch : Type 0 where
  intel att aarch64 : Arch

-- `PrintingPolicy`; `debug` is `DebugMessages`
pub record PrintingPolicy : Type 0 where
  pub skip_sections : List Text
  pub skip_functions : List Text
  pub array_sections : List Text
  pub debug : Bool

pub record Printer : Type 0 where
  pub arch : Arch
  pub handle : Capstone
  pub policy : PrintingPolicy
  pub module_ : Module
  pub function_entry : List ℕ
  pub function_last_block : List ℕ

-- `std::set<Addr>::insert`
pub insert_addr : ℕ → List ℕ → List ℕ
insert_addr a [] = a ∷ []
insert_addr a (b ∷ bs) =
    let rest = insert_addr a bs in
    if ltb a b then a ∷ b ∷ bs else if a == b then b ∷ bs else b ∷ rest

abbrev pub insert_entry : Option CodeBlock → List ℕ → List ℕ
insert_entry none s = s
insert_entry (some b) s = insert_addr b.address s

pub insert_entries : Module → List ℕ → List ℕ → List ℕ
insert_entries m [] s = s
insert_entries m (u ∷ us) s = insert_entries m us (insert_entry (m.code_block_node u) s)

pub entries_of : Module → List (ℕ × List ℕ) → List ℕ → List ℕ
unfolding insert_entries insert_addr
entries_of m [] s = s
entries_of m ((f, us) ∷ fs) s = entries_of m fs (insert_entries m us s)

abbrev max_address : Option CodeBlock → ℕ → ℕ
max_address none last = last
max_address (some b) last = if ltb last b.address then b.address else last

pub last_address : Module → List ℕ → ℕ → ℕ
last_address m [] last = last
last_address m (u ∷ us) last = last_address m us (max_address (m.code_block_node u) last)

pub last_blocks_of : Module → List (ℕ × List ℕ) → List ℕ → List ℕ
unfolding last_address insert_addr
last_blocks_of m [] s = s
last_blocks_of m ((f, us) ∷ fs) s = last_blocks_of m fs (insert_addr (last_address m us 0) s)

abbrev pub table {ℓ} : {A : Type ℓ} → Option (List A) → List A
table none = []
table (some t) = t

abbrev pub insert_name : Text → List Text → List Text
insert_name x xs = if contains x xs then xs else x ∷ xs

-- the constructors of `PrettyPrinterBase` and of `ElfPrettyPrinter`
unfoldable pub create : Arch → Capstone → Module → PrintingPolicy → Printer
unfolding entries_of last_blocks_of
create a cs m policy = record {
  arch = a;
  handle = cs;
  policy = elim m.cfi_directives [
    | none ↦ policy
    | some t ↦ record policy {
      skip_sections = insert_name (codes ".eh_frame") policy.skip_sections;
    }
  ];
  module_ = m;
  function_entry = entries_of m (table m.function_entries) [];
  function_last_block = last_blocks_of m (table m.function_blocks) [];
}

unfoldable pub get_container_section : Printer → ℕ → Option Section
get_container_section p addr = head_of (p.module_.find_sections_on addr)

abbrev pub mem_addr : ℕ → List ℕ → Bool
mem_addr a [] = false
mem_addr a (b ∷ bs) = (a == b) || mem_addr a bs

unfoldable pub is_function_entry : Printer → ℕ → Bool
is_function_entry p x = mem_addr x p.function_entry

unfoldable pub is_function_last_block : Printer → ℕ → Bool
is_function_last_block p x = mem_addr x p.function_last_block

-- are there several symbols of this name?
unfoldable pub is_ambiguous_symbol : Printer → Text → Bool
is_ambiguous_symbol p name = elim (p.module_.find_symbols_named name) [
  | [] ↦ false
  | s ∷ ss ↦ not (is_empty ss)
]

abbrev named_function : Printer → ℕ → Option Symbol → Text
named_function p x none = codes "unknown_function_" ++ hex x
named_function p x (some s) =
    if is_ambiguous_symbol p s.name then s.name ++ (b'_' ∷ hex x) else s.name

-- the name of the function that starts at `x`; empty if none does
unfoldable pub get_function_name : Printer → ℕ → Text
get_function_name p x =
    if is_function_entry p x then named_function p x (head_of (p.module_.find_symbols_at x)) else []

-- the element before `upper_bound(x)`, if there is one
unfoldable pub before_upper_bound : ℕ → Option ℕ → List ℕ → Option ℕ
before_upper_bound x prev [] = prev
before_upper_bound x prev (e ∷ es) =
    let rest = before_upper_bound x (some e) es in if ltb x e then prev else rest

unfoldable pub get_container_function_name : Printer → ℕ → Option Text
get_container_function_name p x = elim (before_upper_bound x none p.function_entry) [
  | none ↦ none
  | some e ↦ some (get_function_name p e)
]

unfoldable pub is_in_skipped_section : Printer → ℕ → Bool
is_in_skipped_section p addr =
    if p.policy.debug then false else elim (get_container_section p addr) [
      | none ↦ false
      | some s ↦ contains s.name p.policy.skip_sections
    ]

unfoldable pub is_in_skipped_function : Printer → ℕ → Bool
is_in_skipped_function p x = elim (get_container_function_name p x) [
  | none ↦ false
  | some f ↦ contains f p.policy.skip_functions
]

unfoldable pub skip_ea : Printer → ℕ → Bool
skip_ea p x = not p.policy.debug && (is_in_skipped_section p x || is_in_skipped_function p x)
