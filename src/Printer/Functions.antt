-- ===== src/Printer/Functions.antt =====
-- The function that contains an address, and what is skipped.
use gtirb_pprinter.Prelude.{
  ℕ, ◌<◌, ◌≤◌, ltb, ltb→lt, ◌==◌, Bool, true, false, ◌||◌, Text, Option, none, some, List, [], ◌∷◌,
  ◌≡◌, ◌⊎◌, inl, inr, refl, arith, All, Bool-cases, ◌∙◌, ap,
}
use gtirb_pprinter.Capstone.{Capstone}
use gtirb_pprinter.Gtirb.{CodeBlock, Module}
use gtirb_pprinter.Printer.{
  Printer, Arch, PrintingPolicy, insert_addr, insert_entries, entries_of, before_upper_bound,
  get_container_function_name, get_function_name, create, mem_addr, is_function_entry, insert_entry,
  table,
}

-- strictly ascending, as `std::set` iterates
abbrev pub Ascending : List ℕ → Type 0
Ascending [] = Unit
Ascending (a ∷ bs) = All (λ b. a < b) bs × Ascending bs

All-insert_addr :
    (c a : ℕ) (s : List ℕ) → c < a → All (λ b. c < b) s → All (λ b. c < b) (insert_addr a s)
unfolding insert_addr
All-insert_addr c a [] h k = (h, tt)
All-insert_addr c a (b ∷ bs) h (k, ks) = ground (arith, All-insert_addr c a bs h ks)

All-lt_trans : (c d : ℕ) (s : List ℕ) → c < d → All (λ b. d < b) s → All (λ b. c < b) s
All-lt_trans c d [] h k = tt
All-lt_trans c d (b ∷ bs) h (k, ks) = (omega arith, All-lt_trans c d bs h ks)

insert_addr-Ascending : (a : ℕ) (s : List ℕ) → Ascending s → Ascending (insert_addr a s)
unfolding insert_addr
insert_addr-Ascending a [] h = (tt, tt)
insert_addr-Ascending a (b ∷ bs) (h, hs) =
    ground (arith, insert_addr-Ascending a bs hs, All-insert_addr b a bs, All-lt_trans a b bs)

mem_addr-insert_addr :
    (x a : ℕ) (s : List ℕ) → mem_addr x (insert_addr a s) ≡ ((x == a) || mem_addr x s)
unfolding insert_addr
mem_addr-insert_addr x a [] = refl
mem_addr-insert_addr x a (b ∷ bs) = ground (arith, mem_addr-insert_addr x a bs)

insert_entry-Ascending :
    (o : Option CodeBlock) (s : List ℕ) → Ascending s → Ascending (insert_entry o s)
insert_entry-Ascending none s h = h
insert_entry-Ascending (some b) s h = insert_addr-Ascending b.address s h

insert_entries-Ascending :
    (m : Module) (us s : List ℕ) → Ascending s → Ascending (insert_entries m us s)
unfolding insert_entries
insert_entries-Ascending m [] s h = h
insert_entries-Ascending m (u ∷ us) s h =
    insert_entries-Ascending m us _ (insert_entry-Ascending (m.code_block_node u) s h)

entries_of-Ascending :
    (m : Module) (fs : List (ℕ × List ℕ)) (s : List ℕ) → Ascending s → Ascending (entries_of m fs s)
unfolding entries_of
entries_of-Ascending m [] s h = h
entries_of-Ascending m ((f, us) ∷ fs) s h =
    entries_of-Ascending m fs _ (insert_entries-Ascending m us s h)

-- is the node a code block at `x`?
abbrev pub stands_at : Option CodeBlock → ℕ → Bool
stands_at none x = false
stands_at (some b) x = x == b.address

abbrev pub any_stands_at : Module → List ℕ → ℕ → Bool
any_stands_at m [] x = false
any_stands_at m (u ∷ us) x = stands_at (m.code_block_node u) x || any_stands_at m us x

-- does a function of the table have an entry block at `x`?
abbrev pub starts_function : Module → List (ℕ × List ℕ) → ℕ → Bool
starts_function m [] x = false
starts_function m ((f, us) ∷ fs) x = any_stands_at m us x || starts_function m fs x

mem_addr-insert_entry :
    (o : Option CodeBlock) (s : List ℕ) (x : ℕ)
    → mem_addr x (insert_entry o s) ≡ (stands_at o x || mem_addr x s)
mem_addr-insert_entry none s x = refl
mem_addr-insert_entry (some b) s x = mem_addr-insert_addr x b.address s

or_swap : (a b c : Bool) → (a || (b || c)) ≡ ((b || a) || c)
or_swap a b c = ground arith

mem_addr-insert_entries :
    (m : Module) (us s : List ℕ) (x : ℕ)
    → mem_addr x (insert_entries m us s) ≡ (any_stands_at m us x || mem_addr x s)
unfolding insert_entries
mem_addr-insert_entries m [] s x = refl
mem_addr-insert_entries m (u ∷ us) s x =
    mem_addr-insert_entries m us (insert_entry (m.code_block_node u) s) x
    ∙ ap (λ b. any_stands_at m us x || b) (mem_addr-insert_entry (m.code_block_node u) s x)
    ∙ or_swap (any_stands_at m us x) (stands_at (m.code_block_node u) x) (mem_addr x s)

mem_addr-entries_of :
    (m : Module) (fs : List (ℕ × List ℕ)) (s : List ℕ) (x : ℕ)
    → mem_addr x (entries_of m fs s) ≡ (starts_function m fs x || mem_addr x s)
unfolding entries_of
mem_addr-entries_of m [] s x = refl
mem_addr-entries_of m ((f, us) ∷ fs) s x =
    mem_addr-entries_of m fs (insert_entries m us s) x
    ∙ ap (λ b. starts_function m fs x || b) (mem_addr-insert_entries m us s x)
    ∙ or_swap (starts_function m fs x) (any_stands_at m us x) (mem_addr x s)

-- `e` is the greatest element of `s` that is at most `x`
abbrev pub IsLastUpTo : ℕ → List ℕ → ℕ → Type 0
IsLastUpTo x s e = (mem_addr e s ≡ true) × (e ≤ x) × ((d : ℕ) → mem_addr d s ≡ true → d ≤ x → d ≤ e)

lt-mem_addr : (a d : ℕ) (s : List ℕ) → All (λ b. a < b) s → mem_addr d s ≡ true → a < d
lt-mem_addr a d [] h m = cc
lt-mem_addr a d (b ∷ bs) (h, hs) m = ground (arith, lt-mem_addr a d bs hs)

before_upper_bound_lem :
    (x : ℕ) (prev : Option ℕ) (s : List ℕ)
    → Ascending s
    → ((before_upper_bound x prev s ≡ prev) × All (λ b. x < b) s)
      ⊎ ((e : ℕ) × (before_upper_bound x prev s ≡ some e) × IsLastUpTo x s e)
unfolding before_upper_bound
before_upper_bound_lem x prev [] h = inl (refl, tt)
before_upper_bound_lem x prev (b ∷ bs) (h, hs) = elim (Bool-cases (ltb x b)) [
  | inl t ↦ inl (rw t refl, (ltb→lt x b t, All-lt_trans x b bs (ltb→lt x b t) h))
  | inr t ↦ elim (before_upper_bound_lem x (some b) bs hs) [
    | inl (e, above) ↦ inr (
      b,
      rw t e,
      (ground arith, ground arith, λ d m le. ground (arith, lt-mem_addr x d bs above)),
    )
    | inr (e, q, (m, le, top)) ↦
        inr
          (e, rw t q, (ground arith, le, λ d md dle. ground (arith, top d, lt-mem_addr b e bs h m)))
  ]
]

create-Ascending :
    (a : Arch) (cs : Capstone) (m : Module) (policy : PrintingPolicy)
    → Ascending (create a cs m policy).function_entry
unfolding create
create-Ascending a cs m policy = entries_of-Ascending m (table m.function_entries) [] tt

or_false : (b : Bool) → (b || false) ≡ b
or_false b = ground arith

-- A printer takes an address for a function's entry exactly when an entry block of a function of
-- the `functionEntries` table stands there.
pub is_function_entry-create :
    (a : Arch) (cs : Capstone) (m : Module) (policy : PrintingPolicy) (x : ℕ)
    → is_function_entry (create a cs m policy) x ≡ starts_function m (table m.function_entries) x
unfolding create is_function_entry
is_function_entry-create a cs m policy x =
    mem_addr-entries_of m (table m.function_entries) [] x
    ∙ or_false (starts_function m (table m.function_entries) x)

-- what the function that contains `x` is called, by the entries of the printer
abbrev pub ContainerName : Printer → ℕ → Option Text → Type 0
ContainerName p x r =
    ((r ≡ none) × All (λ b. x < b) p.function_entry)
    ⊎ ((e : ℕ) × (r ≡ some (get_function_name p e)) × IsLastUpTo x p.function_entry e)

container_name :
    (p : Printer) (x : ℕ)
    → Ascending p.function_entry
    → ContainerName p x (get_container_function_name p x)
unfolding get_container_function_name
container_name p x h = elim (before_upper_bound_lem x none p.function_entry h) [
  | inl (e, above) ↦ inl (rw (e, get_container_function_name) refl, above)
  | inr (e, q, l) ↦ inr (e, rw (q, get_container_function_name) refl, l)
]

-- The function that contains an address is the one with the greatest entry at or below it; there
-- is none exactly when every entry lies above.
pub get_container_function_name-create :
    (a : Arch) (cs : Capstone) (m : Module) (policy : PrintingPolicy) (x : ℕ)
    → ContainerName (create a cs m policy) x (get_container_function_name (create a cs m policy) x)
get_container_function_name-create a cs m policy x =
    container_name (create a cs m policy) x (create-Ascending a cs m policy)
