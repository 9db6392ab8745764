-- ===== src/Binary/Search.antt =====
-- The search through the library paths in src/gtirb_pprinter/ElfBinaryPrinter.cpp.
use gtirb_pprinter.Prelude.{
  ℕ, zero, suc, ◌<◌, arith, if◌then◌else◌, Bool, true, false, Text, Option, none, some, List, [],
  ◌∷◌, ◌++◌, ◌≡◌, ◌⊎◌, inl, inr, refl, ap, Bool-cases, All,
}
use gtirb_pprinter.Binary.{FileSystem, resolve, find_library}

-- A path that is no link is where it leads to in no steps; one that is a link leads, in one more step, to
-- where its contents lead to.
pub data LeadsTo (fs : FileSystem) : ℕ → Text → Text → Type 0 where
  here : {t : Text} → fs.is_symlink t ≡ false → LeadsTo fs zero t t
  via :
      {n : ℕ}
      → {path t : Text} → fs.is_symlink path ≡ true
      → LeadsTo fs n (fs.read_symlink path) t
      → LeadsTo fs (suc n) path t

-- the library's links in a directory lead to a regular file, or to something else
abbrev pub Has : FileSystem → Text → Bool → Text → Type 0
Has fs library b path =
    (n : ℕ) × (t : Text) × LeadsTo fs n (fs.append path library) t × (fs.is_regular_file t ≡ b)

-- the links from the library in a directory end after fewer steps than the fuel
abbrev pub Ends : FileSystem → ℕ → Text → Text → Type 0
Ends fs fuel library path =
    (n : ℕ) × (t : Text) × LeadsTo fs n (fs.append path library) t × (n < fuel)

abbrev pub Without : FileSystem → Text → List Text → Type 0
Without fs library paths = All (Has fs library false) paths

-- the outcome of the search: the file in the first of the paths that has it, or nothing
abbrev pub Search : FileSystem → Text → List Text → Option (Option Text) → Type 0
Search fs library paths r =
    ((r ≡ some none) × Without fs library paths)
    ⊎ ((before : List Text) × (path : Text) × (after : List Text) × (paths
          ≡ before ++ (path ∷ after))
        × Without fs library before
        × Has fs library true path
        × (r ≡ some (some (fs.append path library))))

resolve-LeadsTo :
    (fs : FileSystem) (fuel n : ℕ) (path t : Text)
    → LeadsTo fs n path t
    → n < fuel
    → resolve fs fuel path ≡ some t
unfolding resolve
resolve-LeadsTo fs zero n path t l h = absurd (omega (arith, h))
resolve-LeadsTo fs (suc f) zero path t (here e) h = rw (e, resolve) refl
resolve-LeadsTo fs (suc f) (suc n) path t (via e l) h =
    rw (e, resolve) (resolve-LeadsTo fs f n (fs.read_symlink path) t l (omega (arith, h)))

find_here :
    (fs : FileSystem) (fuel : ℕ) (library path : Text) (paths : List Text) (t : Text)
    → resolve fs fuel (fs.append path library) ≡ some t
    → find_library fs fuel library (path ∷ paths) ≡ (
        if fs.is_regular_file t
        then some (some (fs.append path library))
        else find_library fs fuel library paths)
unfolding find_library
find_here fs fuel library path paths t e = rw (e, find_library) refl

-- If the links from the library in each directory end after fewer steps than the fuel, then the search gives
-- the file in the first directory where they end at a regular file, and nothing if there is none.
pub find_library_lem :
    (fs : FileSystem) (fuel : ℕ) (library : Text) (paths : List Text)
    → All (Ends fs fuel library) paths
    → Search fs library paths (find_library fs fuel library paths)
find_library_lem fs fuel library [] h = inl (unfold find_library in refl, tt)
find_library_lem fs fuel library (p ∷ ps) ((n, t, l, k), hs) =
    let e =
      find_here fs fuel library p ps t (resolve-LeadsTo fs fuel n (fs.append p library) t l k) in
    elim (Bool-cases (fs.is_regular_file t)) [
      | inl y ↦ inr ([], p, ps, refl, tt, (n, t, l, y), rw (e, y) refl)
      | inr m ↦ elim (find_library_lem fs fuel library ps hs) [
        | inl (r, w) ↦ inl (rw (e, m) r, ((n, t, l, m), w))
        | inr (before, path, after, q, w, y, r) ↦
            inr (p ∷ before, path, after, ap (λ u. p ∷ u) q, ((n, t, l, m), w), y, rw (e, m) r)
      ]
    ]
