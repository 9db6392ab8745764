-- ===== src/Binary/Linking.antt =====
-- `link` of src/gtirb_pprinter/ElfBinaryPrinter.cpp: the temporary files and the call of the compiler.
use gtirb_pprinter.Prelude.{
  if◌then◌else◌, ◌⊎◌, true, false, Text, eq_text_refl, Option, none, some, List, [], ◌∷◌, All, ◌≡◌,
  inl, inr, refl, arith, ap, subst, ◌∙◌, Bool-cases, is_empty,
}
use gtirb_pprinter.Prelude.Int.{ℤ, pos, negsuc}
use gtirb_pprinter.Prelude.Result.{Output, ok, Output-cases}
use gtirb_pprinter.Gtirb.{Module}
use gtirb_pprinter.Binary.{
  Store, TempFile, write_file, create_files, remove_files, Written, faulted, not_open, written,
  write_modules, Call, returned, names_of, files_of, modules_of, Toolchain, build_compiler_args,
  link, after_writing, call_compiler,
}
use gtirb_pprinter.Binary.Store.{
  lookup, is_temp, lookup-write_file, lookup-create_files, lookup-remove_files,
}

-- the directory after the loop, unless a printer ended it
abbrev Left : Written → Store → Type 0
Left (faulted e) m = ⊥
Left (not_open f) m = f ≡ m
Left (written f) m = f ≡ m

write_modules-lookup :
    (print : Module → Output) (j : Text) (es : List (TempFile × Module)) (m f : Store)
    → Left (write_modules print es m) f
    → is_temp j (files_of es) ≡ false
    → lookup j f ≡ lookup j m
unfolding write_modules
write_modules-lookup print j [] m f h n = ground (arith, h)
write_modules-lookup print j ((t, k) ∷ es) m f h n = elim (Output-cases (print k)) [
  | inr (e, q) ↦ ground (arith, h, q)
  | inl (text, q) ↦ ground (
    arith,
    q,
    write_modules-lookup print j es (write_file t.name text m) f,
    lookup-write_file j t.name text m,
  )
]

-- the directory when the temporary files are removed: after a call it is what the compiler leaves
abbrev pub left_by : Toolchain → Store → Option Call → Store
left_by tools files none = files
left_by tools files (some call) = tools.writes call

abbrev Sees : Store → Option Call → Type 0
Sees g none = Unit
Sees g (some call) = g ≡ call.seen

-- a call sees the file that was there before, if the name is not that of a temporary file
abbrev pub SeesOther : List TempFile → Store → Text → Option Call → Type 0
SeesOther ts files j none = Unit
SeesOther ts files j (some call) = (is_temp j ts ≡ true) ⊎ (lookup j call.seen ≡ lookup j files)

-- What is left and seen under a name.
abbrev pub IsLeft : Toolchain → List TempFile → Store → Text → Option Call → Store → Type 0
IsLeft tools ts files j c after =
    (lookup j after ≡ (if is_temp j ts then none else lookup j (left_by tools files c)))
    × SeesOther ts files j c

removed :
    (tools : Toolchain) (ts : List TempFile) (files g : Store) (j : Text) (c : Option Call)
    → (is_temp j ts ≡ false → lookup j g ≡ lookup j files)
    → Sees g c
    → IsLeft tools ts files j c (remove_files ts (left_by tools g c))
removed tools ts files g j none h s = (
  elim (Bool-cases (is_temp j ts)) [
    | inl e ↦ lookup-remove_files j ts g ∙ rw e refl
    | inr e ↦ lookup-remove_files j ts g ∙ rw e (h e)
  ],
  tt,
)
removed tools ts files g j (some call) h s = (
  lookup-remove_files j ts (tools.writes call),
  elim (Bool-cases (is_temp j ts)) [
    | inl e ↦ inl e
    | inr e ↦ inr (subst (λ m. lookup j m ≡ lookup j files) s (h e))
  ],
)

module _ (tools : Toolchain) (output : Text) (extra user_paths : List Text)
    (es : List (TempFile × Module)) where
  call_compiler-ended :
      (args : Option (List Text)) (f : Store) (s : ℤ) (c : Option Call) (after : Store)
      → call_compiler tools args (files_of es) f ≡ some (returned s c after)
      → Sees f c × (after ≡ remove_files (files_of es) (left_by tools f c))
  unfolding call_compiler
  call_compiler-ended none f s c after h = absurd (ground (arith, h))
  call_compiler-ended (some args) f s none after h = absurd (ground (arith, h))
  call_compiler-ended (some args) f s (some call) after h = ground (arith, h)

  abbrev built_args : Option (List Text)
  built_args =
      build_compiler_args tools.file_system tools.link_fuel output (names_of es) extra user_paths
        (modules_of es)

  no_call :
      (f : Store) (s : ℤ) (c : Option Call) (after : Store)
      → some (returned (negsuc 0) none (remove_files (files_of es) f)) ≡ some (returned s c after)
      → Sees f c × (after ≡ remove_files (files_of es) (left_by tools f c))
  no_call f s none after h = (tt, cc)
  no_call f s (some c) after h = absurd (ground (arith, h))

  after_writing-ended :
      (w : Written) (s : ℤ) (c : Option Call) (after : Store)
      → after_writing tools output extra user_paths es w ≡ some (returned s c after)
      → (g : Store) × Left w g × Sees g c × (after ≡ remove_files (files_of es) (left_by tools g c))
  unfolding after_writing
  after_writing-ended (faulted e) s c after h = absurd (ground (arith, h))
  after_writing-ended (not_open f) s none after h = (f, refl, tt, cc)
  after_writing-ended (not_open f) s (some c) after h = absurd (ground (arith, h))
  after_writing-ended (written f) s c after h = elim (Bool-cases (is_empty tools.compiler)) [
    | inl e ↦ let (v, q) = no_call f s c after (rw e at h) in (f, refl, v, q)
    | inr e ↦ let (v, q) = call_compiler-ended built_args f s c after (rw e at h) in (f, refl, v, q)
  ]

  -- the status of a call and what it is made with
  abbrev IsCall : ℤ → Call → Option (List Text) → Type 0
  IsCall s call args =
      (s ≡ pos (tools.system call))
      × (call.compiler ≡ tools.compiler)
      × (args ≡ some call.arguments)

  call_compiler-IsCall :
      (args : Option (List Text)) (f : Store) (s : ℤ) (call : Call) (after : Store)
      → call_compiler tools args (files_of es) f ≡ some (returned s (some call) after)
      → (f ≡ call.seen) × IsCall s call args
  unfolding call_compiler
  call_compiler-IsCall none f s call after h = absurd (ground (arith, h))
  call_compiler-IsCall (some args) f s call after h = ground (arith, h)

  after_writing-IsCall :
      (w : Written) (s : ℤ) (call : Call) (after : Store)
      → after_writing tools output extra user_paths es w ≡ some (returned s (some call) after)
      → (w ≡ written call.seen) × (is_empty tools.compiler ≡ false) × IsCall s call built_args
  unfolding after_writing
  after_writing-IsCall (faulted e) s call after h = absurd (ground (arith, h))
  after_writing-IsCall (not_open f) s call after h = absurd (ground (arith, h))
  after_writing-IsCall (written f) s call after h = elim (Bool-cases (is_empty tools.compiler)) [
    | inl e ↦ absurd (ground (arith, h, e))
    | inr e ↦
        let (seen, c) = call_compiler-IsCall built_args f s call after (rw e at h) in
        (ap written seen, e, c)
  ]

  -- However `link` returns, none of its temporary files is left. Under any other name the temporary directory
  -- holds what the compiler leaves there, or, if the compiler was not called, what was there before; and a
  -- call of the compiler sees, under any name but those of the temporary files, what was there before.
  pub link-IsLeft :
      (print : Module → Output) (files after : Store) (s : ℤ) (c : Option Call) (j : Text)
      → link tools print output extra user_paths es files ≡ some (returned s c after)
      → IsLeft tools (files_of es) files j c after
  unfolding link
  link-IsLeft print files after s c j h =
      let made = create_files (files_of es) files in
      let (g, l, v, e) = after_writing-ended (write_modules print es made) s c after h in
      rw e (
        removed tools (files_of es) files g j c
          (λ n.
            write_modules-lookup print j es made g l n
            ∙ lookup-create_files j (files_of es) files n)
          v)

-- each name occurs once
abbrev pub DistinctNames : List (TempFile × Module) → Type 0
DistinctNames [] = Unit
DistinctNames ((t, m) ∷ es) = (is_temp t.name (files_of es) ≡ false) × DistinctNames es

-- A module's file is open and holds what the printer prints of the module.
abbrev pub IsPrinted : (Module → Output) → Store → TempFile × Module → Type 0
IsPrinted print files (t, m) =
    (t.is_open ≡ true) × ((text : Text) × (print m ≡ ok text) × (lookup t.name files ≡ some text))

still_there :
    (print : Module → Output) (t : TempFile) (es : List (TempFile × Module)) (m f : Store)
    (text : Text)
    → write_modules print es (write_file t.name text m) ≡ written f
    → is_temp t.name (files_of es) ≡ false
    → lookup t.name f ≡ some text
still_there print t es m f text h n =
    write_modules-lookup print t.name es (write_file t.name text m) f (rw h refl) n
    ∙ lookup-write_file t.name t.name text m
    ∙ rw (eq_text_refl t.name) refl

write_modules-IsPrinted :
    (print : Module → Output) (es : List (TempFile × Module)) (m f : Store)
    → DistinctNames es
    → write_modules print es m ≡ written f
    → All (IsPrinted print f) es
unfolding write_modules
write_modules-IsPrinted print [] m f d h = tt
write_modules-IsPrinted print ((t, k) ∷ es) m f (d, ds) h = elim (Bool-cases t.is_open) [
  | inr e ↦ absurd (ground (arith, h, e))
  | inl e ↦ elim (Output-cases (print k)) [
    | inr (x, q) ↦ absurd (ground (arith, h, e, q))
    | inl (text, q) ↦
        let rest : write_modules print es (write_file t.name text m) ≡ written f =
          ground (arith, h, e, q) in
        (
          (e, (text, q, still_there print t es m f text rest d)),
          write_modules-IsPrinted print es (write_file t.name text m) f ds rest,
        )
  ]
]

-- When `link` calls the compiler, one was found, its arguments are those that were built, and every temporary
-- file is open and holds the whole text that the printer writes for its module, if no two temporary files
-- share a name. The status of `link` is then that of the call.
pub link-IsPrinted :
    (tools : Toolchain) (output : Text) (extra user_paths : List Text)
    (es : List (TempFile × Module)) (print : Module → Output) (files after : Store) (s : ℤ)
    (call : Call)
    → DistinctNames es
    → link tools print output extra user_paths es files ≡ some (returned s (some call) after)
    → All (IsPrinted print call.seen) es
      × (is_empty tools.compiler ≡ false)
      × (s ≡ pos (tools.system call))
      × (call.compiler ≡ tools.compiler)
      × (build_compiler_args tools.file_system tools.link_fuel output
            (names_of es)
            extra
            user_paths
            (modules_of es)
          ≡ some call.arguments)
unfolding link
link-IsPrinted tools output extra user_paths es print files after s call d h =
    let made = create_files (files_of es) files in
    let (w, c, i) =
      after_writing-IsCall tools output extra user_paths es (write_modules print es made) s call
        after h in
    (write_modules-IsPrinted print es made call.seen d w, c, i.0, i.1, i.2)

write_modules-written :
    (print : Module → Output) (es : List (TempFile × Module)) (m : Store)
    → All
        (λ (e : TempFile × Module). (e.0.is_open ≡ true) × ((text : Text) × (print e.1 ≡ ok text)))
        es
    → (f : Store) × (write_modules print es m ≡ written f)
unfolding write_modules
write_modules-written print [] m h = (m, refl)
write_modules-written print ((t, k) ∷ es) m ((o, (text, q)), hs) =
    let (f, e) = write_modules-written print es (write_file t.name text m) hs in
    (f, rw (o, q, write_modules) e)

-- If every temporary file opens, the printer writes every module, the compiler is found and the arguments can be
-- built, then `link` calls the compiler with them and returns its status.
pub link-runs :
    (tools : Toolchain) (output : Text) (extra user_paths : List Text)
    (es : List (TempFile × Module)) (print : Module → Output) (files : Store) (args : List Text)
    → All
        (λ (e : TempFile × Module). (e.0.is_open ≡ true) × ((text : Text) × (print e.1 ≡ ok text)))
        es
    → is_empty tools.compiler ≡ false
    → build_compiler_args tools.file_system tools.link_fuel output
        (names_of es)
        extra
        user_paths
        (modules_of es)
      ≡ some args
    → (call : Call) × (after : Store) × (link tools print output extra user_paths es files
        ≡ some (returned (pos (tools.system call)) (some call) after))
      × (call.compiler ≡ tools.compiler)
      × (call.arguments ≡ args)
unfolding link after_writing call_compiler
link-runs tools output extra user_paths es print files args h c b =
    let (f, e) = write_modules-written print es (create_files (files_of es) files) h in
    (
      record { compiler = tools.compiler; arguments = args; seen = f },
      remove_files (files_of es)
          (tools.writes (record { compiler = tools.compiler; arguments = args; seen = f })),
      rw (e, c, b, link) refl,
      refl,
      refl,
    )
