-- ===== src/Lib.antt =====
-- gtirb-pprinter turns a GTIRB module into assembly text. This library models the program's own
-- logic and proves properties of it.
--
-- The parts of the program, and the modules that model them:
--
--   Layout       src/gtirb_layout/gtirb_layout.cpp. `layout_module` is `layoutModule`:
--                `find_and_merge_bis` is `findAndMergeBIs`, which joins byte intervals along
--                fallthrough edges, and `assign` gives the addresses. Layout.Ir has the intervals
--                and the graph; blocks and intervals are named by UUIDs, which stand for pointers.
--   Gtirb        What is read of a GTIRB module: the answers to the queries that the code makes,
--                and the AuxData tables of include/gtirb_pprinter/AuxDataSchema.hpp.
--   AuxData      The schemas of include/gtirb_pprinter/AuxDataSchema.hpp and their registration,
--                `registerAuxDataTypes`.
--   Capstone     What is read of Capstone's instructions; its numbers and functions are fields.
--   Syntax       src/gtirb_pprinter/Syntax.cpp and the constants of the syntax classes.
--   StringUtils  src/gtirb_pprinter/string_utils.cpp.
--   Printer      The state of `PrettyPrinterBase`, its construction and its queries.
--   Symbols      Names, labels, forwarding, symbolic expressions.
--   Sections     Section headers and footers, alignment, function headers (with
--                src/gtirb_pprinter/ElfPrettyPrinter.cpp).
--   Directives   Comments and CFI directives.
--   Data         Data blocks.
--   Operands     What the three syntaxes share; Intel, Att and AArch64 are
--                src/gtirb_pprinter/IntelPrettyPrinter.cpp, AttPrettyPrinter.cpp and
--                AArch64PrettyPrinter.cpp. Att.Reading and Intel.Address read operands as an
--                assembler does.
--   Instruction  `fixupInstruction` and `printInstruction`.
--   Blocks       `PrettyPrinterBase::print`: blocks in address order, overlap warnings.
--                Blocks.Document describes the listing as a list of lines, each of which is then
--                rendered; Sites and Labels below it are about where labels are defined, Regions,
--                Entering and Switching about which section is current, Location and Placing about
--                the addresses at which the GNU assembler puts the lines, Ending, Lines and Written
--                about the ends of lines.
--   Registry     `registerPrinter`, the default syntaxes and the class `PrettyPrinter`.
--   Total        The conditions that `print` relies on and does not test.
--   Loading      What the three programs do with an IR before they use it: the input, and the layout
--                of the modules that have no address.
--   Binary       src/gtirb_pprinter/ElfBinaryPrinter.cpp. `link` changes a store, the temporary
--                directory, and makes at most one call of the compiler.
--   Driver       src/gtirb_pprinter/driver/pretty_printer.cpp; Driver.Program is its `main`.
--   BinaryDriver src/gtirb_pprinter/driver/binary_printer.cpp.
--   LayoutDriver src/gtirb_layout/driver/gtirb_layout.cpp.
--   Examples     A small module on which the theorems are run.
--
-- Where no file is named, the code is in src/gtirb_pprinter/PrettyPrinter.cpp. The driver lays a
-- module out, configures a `PrettyPrinter` and lets it print; that looks the factory up by its target
-- and creates a printer, whose `print` visits the blocks and calls, from there, everything above.
-- A definition has the name of the C++ function in snake case. Virtual functions are clauses on
-- `Arch`, the class of the printer.
--
-- A function that writes to a stream returns an `Output`: the text that it appends, or the fault
-- that ends the program (a null dereference, a failed cast, `exit(1)`, `std::out_of_range`). Text
-- is a list of bytes. Assertions are taken as compiled out. Addresses and
-- the sizes of intervals wrap at 2 ^ 64; the offsets of blocks in an interval add without bound.
--
-- Fuel: `find_and_merge` has one round more than there are intervals, as each merge removes one;
-- the loop over symbolic links has fuel as an argument.
--
-- Not modelled: what GTIRB reads and writes, disassembly, the file system beside the temporary
-- files, the parts of a path, what the compiler does, and log messages. These are arguments or are
-- left out: `Toolchain` has the status of a call of the compiler and what the call leaves in the
-- temporary directory, and `Paths` has what `fs::path` answers. The parsing of a command line is
-- given by its three outcomes: an error, the request for help, the options. A block is taken to
-- have an address, since the drivers lay out what has none; how the printer's queries see the
-- sections that were laid out is an argument, `view`.
pub mod Prelude
pub mod Layout
pub mod Gtirb
pub mod Capstone
pub mod Syntax
pub mod StringUtils
pub mod Printer
pub mod Symbols
pub mod Sections
pub mod Directives
pub mod Data
pub mod Operands
pub mod Intel
pub mod Att
pub mod AuxData
pub mod AArch64
pub mod Instruction
pub mod Blocks
pub mod Loading
pub mod LayoutDriver
pub mod Registry
pub mod Binary
pub mod Driver
pub mod BinaryDriver
pub mod Examples
pub mod Total
