-- ===== src/Examples/Tables.antt =====
-- A run of the theorem on the registration of AuxData types.
use gtirb_pprinter.Prelude.{
  Text, codes, eq_text, eq_text_refl, eq_text_sound, if◌then◌else◌, Option, none, some, List, [],
  ◌∷◌, ◌≡◌, ◌≢◌, refl, inl, inr, arith, Bool-cases, Option-cases,
}
use gtirb_pprinter.AuxData.{
  AuxType, own_name, GivenSchema, comments, function_entries, function_blocks, symbol_forwarding,
  OwnSchema, library_paths, own, Sanctioned, Container, register_aux_data_types,
}
use gtirb_pprinter.AuxData.Registered.{register_aux_data_types_lem}

-- a list of names and types; a name that is there is not registered again
abbrev find_type : List (Text × AuxType) → Text → Option AuxType
find_type [] m = none
find_type ((n, t) ∷ c) m = if eq_text n m then some t else find_type c m

abbrev register : List (Text × AuxType) → Text → AuxType → List (Text × AuxType)
register c n t = elim (find_type c n) [ none ↦ (n, t) ∷ c | some u ↦ c ]

find_type-new :
    (c : List (Text × AuxType)) (n : Text) (t : AuxType)
    → find_type c n ≡ none
    → find_type (register c n t) n ≡ some t
find_type-new c n t h = rw (h, register) (rw (eq_text_refl n) refl)

find_type-again :
    (c : List (Text × AuxType)) (n : Text) (t : AuxType)
    → find_type c n ≡ some t
    → find_type (register c n t) n ≡ some t
find_type-again c n t h = rw (h, register) h

find_type-other :
    (c : List (Text × AuxType)) (n m : Text) (t : AuxType)
    → n ≢ m
    → find_type (register c n t) m ≡ find_type c m
find_type-other c n m t h = elim (Option-cases (find_type c n)) [
  | inr (u, e) ↦ rw (e, register) refl
  | inl e ↦ elim (Bool-cases (eq_text n m)) [
    | inl q ↦ absurd (h (eq_text_sound n m q))
    | inr q ↦ rw (e, register) (rw q refl)
  ]
]

abbrev container : Container (List (Text × AuxType))
container = record {
  register = register;
  find = find_type;
  find_new = find_type-new;
  find_again = find_type-again;
  find_other = find_type-other;
}

abbrev names : GivenSchema → Text
names comments = codes "comments"
names function_entries = codes "functionEntries"
names function_blocks = codes "functionBlocks"
names symbol_forwarding = codes "symbolForwarding"

abbrev kinds : GivenSchema → AuxType
kinds comments = AuxType.mapping AuxType.offset AuxType.string
kinds symbol_forwarding = AuxType.mapping AuxType.uuid AuxType.uuid
kinds _ = AuxType.mapping AuxType.uuid (AuxType.vector AuxType.uuid)

abbrev sanctioned : Sanctioned
sanctioned = record { name = names; kind = kinds }

names-injective : (s t : GivenSchema) → names s ≡ names t → s ≡ t
names-injective s t h = ground (arith, h)

names-own : (s : GivenSchema) (t : OwnSchema) → names s ≢ own_name t
unfolding own_name
names-own s t h = ground (arith, h)

register_aux_data_types_lem_example :
    find_type (register_aux_data_types container sanctioned []) (codes "libraryPaths")
    ≡ some (AuxType.vector AuxType.string)
unfolding own_name
register_aux_data_types_lem_example =
    register_aux_data_types_lem container sanctioned [] (own library_paths)
      (names-injective, names-own) (inl refl)
