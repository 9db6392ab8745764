-- ===== src/Examples/Texts.antt =====
-- Runs of the theorems on texts: literals, names, labels, operand strings, libraries and files.
use gtirb_pprinter.Prelude.{true, Text, codes, some, [], ◌∷◌, ◌++◌, ◌≡◌, ◌⊎◌, refl}
use gtirb_pprinter.Prelude.Number.{dec}
use gtirb_pprinter.Prelude.Result.{ok}
use gtirb_pprinter.Syntax.{format_symbol_name, is_adapted}
use gtirb_pprinter.Syntax.Names.{format_symbol_name_collision}
use gtirb_pprinter.AArch64.RawValue.{raw_value, skip_space}
use gtirb_pprinter.AArch64.RawOperand.{raw_value-joined}
use gtirb_pprinter.Driver.{get_asm_file_name}
use gtirb_pprinter.Driver.Files.{Numbered, get_asm_file_name_lem}
use gtirb_pprinter.Data.{data_content}
use gtirb_pprinter.Data.Bytes.{assemble, assemble-data_content}
use gtirb_pprinter.Examples.{table_data, printer}

assemble-data_content_example :
    (t : Text) × (data_content printer table_data ≡ ok t)
    × (assemble t ≡ some (b'"' ∷ b'\\' ∷ 10 ∷ 0 ∷ []))
assemble-data_content_example = assemble-data_content printer table_data refl refl refl

raw_value-joined_example : raw_value (codes "w0, [x1, #8], lsl #2") 1 ≡ codes "[x1, #8]"
unfolding skip_space
raw_value-joined_example =
    raw_value-joined (codes "w0" ∷ codes "[x1, #8]" ∷ codes "lsl #2" ∷ []) 1 (codes "[x1, #8]")
      (refl, (refl, (refl, tt))) refl

same_form : format_symbol_name (codes "FS") ≡ format_symbol_name (codes "FS_renamed")
unfolding format_symbol_name is_adapted
same_form = refl

format_symbol_name_collision_example :
    (codes "FS" ≡ codes "FS_renamed")
    ⊎ ((is_adapted (codes "FS") ≡ true) × (codes "FS_renamed" ≡ codes "FS" ++ codes "_renamed"))
    ⊎ ((is_adapted (codes "FS_renamed") ≡ true)
        × (codes "FS" ≡ codes "FS_renamed" ++ codes "_renamed"))
format_symbol_name_collision_example =
    format_symbol_name_collision (codes "FS") (codes "FS_renamed") same_form

get_asm_file_name_lem_example : Numbered (codes "out.s") 2 (get_asm_file_name (codes "out.s") 2)
get_asm_file_name_lem_example = get_asm_file_name_lem (codes "out.s") 1

second_name : get_asm_file_name (codes "out.s") 2 ≡ ok (codes "out2.s")
unfolding get_asm_file_name dec
second_name = refl
