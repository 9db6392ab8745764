-- ===== src/Registry/Defaults.antt =====
-- What the registrations of src/gtirb_pprinter/PrettyPrinter.cpp leave in the maps: the factories
-- and the default syntaxes.
use gtirb_pprinter.Prelude.{
  Text, codes, Option, none, some, List, [], ◌∷◌, ◌≡◌, ◌⊎◌, inl, inr, refl,
}
use gtirb_pprinter.Printer.{Arch, intel, att, aarch64}
use gtirb_pprinter.Registry.{
  Registry, Target, find_factory, get_default_syntax, register_printer, register_one,
  register_syntaxes, register_formats, register_class, register_all, empty, set_default_syntax,
}

abbrev pub syntax_of : Arch → Text
syntax_of intel = codes "intel"
syntax_of att = codes "att"
syntax_of aarch64 = codes "aarch64"

abbrev pub target_of : Arch → Target
target_of a = (codes "elf", syntax_of a)

abbrev pub Among : Arch → List Arch → Type 0
Among a [] = ⊥
Among a (b ∷ bs) = (a ≡ b) ⊎ Among a bs

-- the default that the classes set, the last one in force; AT&T sets none
abbrev pub last_default : List Arch → Option Text → Option Text
last_default [] d = d
last_default (intel ∷ rest) d = last_default rest (some (codes "intel"))
last_default (att ∷ rest) d = last_default rest d
last_default (aarch64 ∷ rest) d = last_default rest (some (codes "aarch64"))

register_class-default :
    (a : Arch) (r : Registry)
    → get_default_syntax (register_class a r) (codes "elf")
      ≡ last_default (a ∷ []) (get_default_syntax r (codes "elf"))
unfolding get_default_syntax register_printer register_formats register_syntaxes register_one
    set_default_syntax
register_class-default intel r = refl
register_class-default att r = refl
register_class-default aarch64 r = refl

register_all-default :
    (as' : List Arch) (r : Registry)
    → get_default_syntax (register_all as' r) (codes "elf")
      ≡ last_default as' (get_default_syntax r (codes "elf"))
register_all-default [] r = refl
register_all-default (intel ∷ rest) r =
    rw (register_all-default rest (register_class intel r), register_class-default intel r) refl
register_all-default (att ∷ rest) r =
    rw (register_all-default rest (register_class att r), register_class-default att r) refl
register_all-default (aarch64 ∷ rest) r =
    rw (register_all-default rest (register_class aarch64 r), register_class-default aarch64 r) refl

abbrev pub factory_for : Arch → Registry → Option (Option Arch)
factory_for a r = find_factory (target_of a) r.factories

register_class_keeps :
    (a b : Arch) (r : Registry)
    → (factory_for a (register_class b r) ≡ some (some a))
      ⊎ (factory_for a (register_class b r) ≡ factory_for a r)
unfolding register_printer register_formats register_syntaxes register_one set_default_syntax
register_class_keeps intel intel r = inl refl
register_class_keeps intel att r = inr refl
register_class_keeps intel aarch64 r = inr refl
register_class_keeps att intel r = inr refl
register_class_keeps att att r = inl refl
register_class_keeps att aarch64 r = inr refl
register_class_keeps aarch64 intel r = inr refl
register_class_keeps aarch64 att r = inr refl
register_class_keeps aarch64 aarch64 r = inl refl

register_class-own : (a : Arch) (r : Registry) → factory_for a (register_class a r) ≡ some (some a)
unfolding register_printer register_formats register_syntaxes register_one set_default_syntax
register_class-own intel r = refl
register_class-own att r = refl
register_class-own aarch64 r = refl

register_all-keeps :
    (a : Arch) (bs : List Arch) (r : Registry)
    → factory_for a r ≡ some (some a)
    → factory_for a (register_all bs r) ≡ some (some a)
register_all-keeps a [] r h = h
register_all-keeps a (b ∷ bs) r h =
    register_all-keeps a bs (register_class b r)
      (elim (register_class_keeps a b r) [ inl e ↦ e | inr e ↦ rw e h ])

register_all-factory :
    (a : Arch) (bs : List Arch) (r : Registry)
    → Among a bs
    → factory_for a (register_all bs r) ≡ some (some a)
register_all-factory a [] r i = absurd i
register_all-factory a (b ∷ bs) r (inl e) =
    register_all-keeps a bs (register_class b r) (rw e (register_class-own b r))
register_all-factory a (b ∷ bs) r (inr i) = register_all-factory a bs (register_class b r) i

-- In whatever order the classes are registered, starting from empty maps: the target of each class
-- that is registered has that class's factory, and the default syntax of "elf" is that of the
-- last class registered other than AT&T.
pub register_all_lem :
    (order : List Arch)
    → ((a : Arch) → Among a order → factory_for a (register_all order empty) ≡ some (some a))
      × (get_default_syntax (register_all order empty) (codes "elf") ≡ last_default order none)
unfolding get_default_syntax
register_all_lem order =
    (λ a i. register_all-factory a order empty i, register_all-default order empty)
