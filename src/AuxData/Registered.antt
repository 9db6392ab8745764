-- ===== src/AuxData/Registered.antt =====
-- The types under which the tables of `registerAuxDataTypes` in src/gtirb_pprinter/PrettyPrinter.cpp are found.
use gtirb_pprinter.Prelude.{
  Text, codes, eq_text, eq_text_sound, eq_text_complete, if◌then◌else◌, Bool, true, false, Option,
  none, some, List, [], ◌∷◌, ◌≡◌, ◌≢◌, ◌⊎◌, refl, sym, ap, ◌∙◌, inl, inr, Bool-cases,
}
use gtirb_pprinter.AuxData.{
  OwnSchema, encodings, symbolic_operand_info, elf_section_properties, cfi_directives, libraries,
  library_paths, own_name, GivenSchema, comments, function_entries, function_blocks,
  symbol_forwarding, Schema, given, own, Sanctioned, schema_name, schema_type, Container,
  all_schemas, register_each, register_aux_data_types,
}

named : Text → Option OwnSchema
named t =
    if eq_text t (codes "encodings")
    then some encodings
    else if eq_text t (codes "symbolicOperandInfo")
    then some symbolic_operand_info
    else if eq_text t (codes "elfSectionProperties")
    then some elf_section_properties
    else if eq_text t (codes "cfiDirectives")
    then some cfi_directives
    else if eq_text t (codes "libraries")
    then some libraries
    else if eq_text t (codes "libraryPaths")
    then some library_paths
    else none

named-own_name : (s : OwnSchema) → named (own_name s) ≡ some s
unfolding named own_name
named-own_name encodings = refl
named-own_name symbolic_operand_info = refl
named-own_name elf_section_properties = refl
named-own_name cfi_directives = refl
named-own_name libraries = refl
named-own_name library_paths = refl

own_name-injective : (s t : OwnSchema) → own_name s ≡ own_name t → s ≡ t
own_name-injective s t h = injected (sym (named-own_name s) ∙ ap named h ∙ named-own_name t)
  where
    injected : some s ≡ some t → s ≡ t
    injected h = cc

-- GTIRB's names are all different, and different from those of the repository.
abbrev pub IsDistinct : Sanctioned → Type 0
IsDistinct g =
    ((s t : GivenSchema) → g.name s ≡ g.name t → s ≡ t)
    × ((s : GivenSchema) (t : OwnSchema) → g.name s ≢ own_name t)

schema_name-injective :
    (g : Sanctioned) → IsDistinct g → (s t : Schema) → schema_name g s ≡ schema_name g t → s ≡ t
schema_name-injective g d (given s) (given t) h = ap given (d.0 s t h)
schema_name-injective g d (given s) (own t) h = absurd (d.1 s t h)
schema_name-injective g d (own s) (given t) h = absurd (d.1 t s (sym h))
schema_name-injective g d (own s) (own t) h = ap own (own_name-injective s t h)

abbrev Among : Schema → List Schema → Type 0
Among s [] = ⊥
Among s (t ∷ ts) = (t ≡ s) ⊎ Among s ts

differ : (c : Bool) → c ≡ true → c ≡ false → ⊥
differ c a b = cc

-- The schema's name is not there, or with the schema's type.
abbrev pub IsOpen : {C : Type 0} → Container C → Sanctioned → C → Schema → Type 0
IsOpen k g c s =
    (k.find c (schema_name g s) ≡ none) ⊎ (k.find c (schema_name g s) ≡ some (schema_type g s))

module _ {C : Type 0} (k : Container C) (g : Sanctioned) (d : IsDistinct g) where
  abbrev step : C → Schema → C
  step c t = k.register c (schema_name g t) (schema_type g t)

  registered :
      (c : C) (s : Schema)
      → IsOpen k g c s
      → k.find (step c s) (schema_name g s) ≡ some (schema_type g s)
  registered c s (inl e) = k.find_new c (schema_name g s) (schema_type g s) e
  registered c s (inr e) = k.find_again c (schema_name g s) (schema_type g s) e

  -- another schema, or the same
  step-cases :
      (c : C) (s t : Schema)
      → (t ≡ s) ⊎ (k.find (step c t) (schema_name g s) ≡ k.find c (schema_name g s))
  step-cases c s t = elim (Bool-cases (eq_text (schema_name g t) (schema_name g s))) [
    | inl e ↦
        inl (schema_name-injective g d t s (eq_text_sound (schema_name g t) (schema_name g s) e))
    | inr e ↦ inr (
        k.find_other c (schema_name g t) (schema_name g s) (schema_type g t) (λ q.
          differ (eq_text (schema_name g t) (schema_name g s))
            (eq_text_complete (schema_name g t) (schema_name g s) q) e))
  ]

  step-kept :
      (c : C) (s t : Schema)
      → k.find c (schema_name g s) ≡ some (schema_type g s)
      → k.find (step c t) (schema_name g s) ≡ some (schema_type g s)
  step-kept c s t h = elim (step-cases c s t) [
    | inl e ↦ rw e (registered c s (inr h))
    | inr e ↦ e ∙ h
  ]

  step-IsOpen : (c : C) (s t : Schema) → IsOpen k g c s → IsOpen k g (step c t) s
  step-IsOpen c s t (inr h) = inr (step-kept c s t h)
  step-IsOpen c s t (inl h) = elim (step-cases c s t) [
    | inl e ↦ inr (rw e (registered c s (inl h)))
    | inr e ↦ inl (e ∙ h)
  ]

  kept :
      (c : C) (ss : List Schema) (s : Schema)
      → k.find c (schema_name g s) ≡ some (schema_type g s)
      → k.find (register_each k g c ss) (schema_name g s) ≡ some (schema_type g s)
  unfolding register_each
  kept c [] s h = h
  kept c (t ∷ ts) s h = kept (step c t) ts s (step-kept c s t h)

  register_each-Among :
      (c : C) (ss : List Schema) (s : Schema)
      → IsOpen k g c s
      → Among s ss
      → k.find (register_each k g c ss) (schema_name g s) ≡ some (schema_type g s)
  unfolding register_each
  register_each-Among c [] s o h = absurd h
  register_each-Among c (t ∷ ts) s o (inl e) = kept (step c t) ts s (rw e (registered c s o))
  register_each-Among c (t ∷ ts) s o (inr h) =
      register_each-Among (step c t) ts s (step-IsOpen c s t o) h

every : (s : Schema) → Among s all_schemas
every (given comments) = inl refl
every (given function_entries) = inr (inl refl)
every (given function_blocks) = inr (inr (inl refl))
every (given symbol_forwarding) = inr (inr (inr (inl refl)))
every (own symbolic_operand_info) = inr (inr (inr (inr (inl refl))))
every (own encodings) = inr (inr (inr (inr (inr (inl refl)))))
every (own elf_section_properties) = inr (inr (inr (inr (inr (inr (inl refl))))))
every (own cfi_directives) = inr (inr (inr (inr (inr (inr (inr (inl refl)))))))
every (own libraries) = inr (inr (inr (inr (inr (inr (inr (inr (inl refl))))))))
every (own library_paths) = inr (inr (inr (inr (inr (inr (inr (inr (inr (inl refl)))))))))

-- After `registerAuxDataTypes`, a table that the printers read is found under its name with the type of its
-- schema, if that name was not registered before or with this type, and if the names of GTIRB's schemas
-- differ from each other and from those of the repository.
pub register_aux_data_types_lem :
    {C : Type 0} (k : Container C) (g : Sanctioned) (c : C) (s : Schema)
    → IsDistinct g
    → IsOpen k g c s
    → k.find (register_aux_data_types k g c) (schema_name g s) ≡ some (schema_type g s)
unfolding register_aux_data_types
register_aux_data_types_lem k g c s d o = register_each-Among k g d c all_schemas s o (every s)
