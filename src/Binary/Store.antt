-- ===== src/Binary/Store.antt =====
-- The temporary files of `link` in src/gtirb_pprinter/ElfBinaryPrinter.cpp: what a look-up finds after each
-- operation on the directory.
use gtirb_pprinter.Prelude.{
  Bool, true, false, ◌||◌, Text, eq_text, eq_text_sound, Option, none, some, List, [], ◌∷◌, ◌≡◌,
  refl, arith, if◌then◌else◌,
}
use gtirb_pprinter.Binary.{Store, TempFile, erase_file, write_file, create_files, remove_files}

abbrev pub lookup : Text → Store → Option Text
lookup name [] = none
lookup name ((n, t) ∷ files) = if eq_text n name then some t else lookup name files

abbrev pub is_temp : Text → List TempFile → Bool
is_temp name [] = false
is_temp name (t ∷ ts) = eq_text t.name name || is_temp name ts

same_name : (a b c : Text) → eq_text a b ≡ true → eq_text a c ≡ eq_text b c
same_name a b c h = rw (eq_text_sound a b h) refl

same_other : (a b c : Text) → eq_text a b ≡ true → eq_text c a ≡ eq_text c b
same_other a b c h = rw (eq_text_sound a b h) refl

pub lookup-erase_file :
    (j k : Text) (m : Store)
    → lookup j (erase_file k m) ≡ (if eq_text k j then none else lookup j m)
unfolding erase_file
lookup-erase_file j k [] = ground arith
lookup-erase_file j k ((n, t) ∷ m) =
    ground (arith, lookup-erase_file j k m, same_name n k j, same_other k j n)

pub lookup-write_file :
    (j k v : Text) (m : Store)
    → lookup j (write_file k v m) ≡ (if eq_text k j then some v else lookup j m)
unfolding write_file
lookup-write_file j k v m = ground (arith, lookup-erase_file j k m)

pub lookup-create_files :
    (j : Text) (ts : List TempFile) (m : Store)
    → is_temp j ts ≡ false
    → lookup j (create_files ts m) ≡ lookup j m
unfolding create_files
lookup-create_files j [] m h = refl
lookup-create_files j (t ∷ ts) m h =
    ground
      (arith, lookup-create_files j ts (write_file t.name [] m), lookup-write_file j t.name [] m)

pub lookup-remove_files :
    (j : Text) (ts : List TempFile) (m : Store)
    → lookup j (remove_files ts m) ≡ (if is_temp j ts then none else lookup j m)
unfolding remove_files
lookup-remove_files j [] m = refl
lookup-remove_files j (t ∷ ts) m =
    ground (arith, lookup-remove_files j ts (erase_file t.name m), lookup-erase_file j t.name m)
