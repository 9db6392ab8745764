-- ===== src/Intel/Address.antt =====
-- The address that a memory operand of src/gtirb_pprinter/IntelPrettyPrinter.cpp stands for.
use gtirb_pprinter.Prelude.{
  ℕ, suc, ◌+◌, ◌-◌, ◌*◌, ◌%◌, ◌<◌, ltb, ◌==◌, if◌then◌else◌, Bool, true, false, ◌&&◌, Text, Option,
  none, some, List, [], ◌∷◌, ◌++◌, ◌≡◌, refl, arith, ap, ◌∙◌, sym, append_assoc, append-nil,
  Bool-cases, inl, inr,
}
use gtirb_pprinter.Prelude.Number.{
  u64_mod, dec, dec_value, dec_value-dec, AllDecimal, dec-AllDecimal, dec-AllDigits,
}
use gtirb_pprinter.Prelude.Int.{ℤ, pos, negsuc, to_u64, dec_int}
use gtirb_pprinter.Capstone.{X86Mem}
use gtirb_pprinter.Printer.{Printer}
use gtirb_pprinter.Symbols.{print_addend}
use gtirb_pprinter.Operands.{get_register_name}
use gtirb_pprinter.Operands.Cutting.{cut, Lacks, cut-Lacks, cut_at, Lacks-append, digits-Lacks}
use gtirb_pprinter.Intel.{absent, index_text}

-- the text before the first sign, and the texts after each sign, `true` for a plus
abbrev pub terms : Text → Text × List (Bool × Text)
terms [] = ([], [])
terms (c ∷ s) =
    let (t, ts) = terms s in
    if c == b'+'
    then ([], (true, t) ∷ ts)
    else if c == b'-'
    then ([], (false, t) ∷ ts)
    else (c ∷ t, ts)

-- a register, or a register times a scale
abbrev scaled : (Text → ℕ) → Text × Option Text → ℕ
scaled env (name, none) = env name
scaled env (name, some k) = env name * dec_value 0 k

-- A term begins with a digit if it is a number.
abbrev pub term : (Text → ℕ) → Text → ℕ
term env [] = 0
term env (c ∷ s) = if ltb c 58 then dec_value 0 (c ∷ s) else scaled env (cut b'*' (c ∷ s))

abbrev signed : Bool → ℕ → ℕ
signed true n = n
signed false n = u64_mod - n % u64_mod

abbrev pub sum : (Text → ℕ) → List (Bool × Text) → ℕ
sum env [] = 0
sum env ((b, t) ∷ ts) = signed b (term env t) + sum env ts

abbrev pub total : (Text → ℕ) → Text × List (Bool × Text) → ℕ
total env (t, ts) = (term env t + sum env ts) % u64_mod

abbrev pub after_bracket : Option Text → Text
after_bracket none = []
after_bracket (some t) = (cut b']' t).0

-- What an assembler makes of the text between the brackets, where the registers have the values of `env`.
abbrev pub address : (Text → ℕ) → Text → ℕ
address env t = total env (terms (after_bracket ((cut b'[' t).1)))

-- no sign
abbrev Unsigned : Text → Type 0
Unsigned s = Lacks b'+' s × Lacks b'-' s

terms-Unsigned : (s r : Text) → Unsigned s → terms (s ++ r) ≡ (s ++ (terms r).0, (terms r).1)
terms-Unsigned [] r h = refl
terms-Unsigned (c ∷ s) r ((p, ps), (m, ms)) =
    let np : (c == b'+') ≡ false = ground (arith, p) in
    let nm : (c == b'-') ≡ false = ground (arith, m) in
    rw (np, nm, terms-Unsigned s r (ps, ms)) refl

-- the name of a register: no digit begins it, and it has no mark
abbrev pub IsWord : Text → Type 0
IsWord [] = ⊥
IsWord (c ∷ s) = (57 < c)

abbrev pub IsRegister : Text → Type 0
IsRegister s = IsWord s × Lacks b'+' s × Lacks b'-' s × Lacks b'*' s × Lacks b'[' s × Lacks b']' s

term-register : (env : Text → ℕ) (s : Text) → IsRegister s → term env s ≡ env s
term-register env [] h = absurd h.0
term-register env (c ∷ s) (w, _, _, h, _, _) =
    let n : ltb c 58 ≡ false = ground (arith, w) in
    rw n (ap (scaled env) (cut-Lacks b'*' (c ∷ s) h))

term-scaled :
    (env : Text → ℕ) (s : Text) (k : ℕ) → IsRegister s → term env (s ++ (b'*' ∷ dec k)) ≡ env s * k
term-scaled env [] k h = absurd h.0
term-scaled env (c ∷ s) k (w, _, _, h, _, _) =
    let n : ltb c 58 ≡ false = ground (arith, w) in
    rw n (
      ap (scaled env) (cut_at b'*' (c ∷ s) (dec k) h)
      ∙ ap (λ (j : ℕ). env (c ∷ s) * j) (dec_value-dec k))

term-decimal : (env : Text → ℕ) (s : Text) → AllDecimal s → term env s ≡ dec_value 0 s
term-decimal env [] h = refl
term-decimal env (c ∷ s) (_, h, _) = let n : ltb c 58 ≡ true = ground (arith, h) in rw n refl

term-dec : (env : Text → ℕ) (n : ℕ) → term env (dec n) ≡ n
term-dec env n = term-decimal env (dec n) (dec-AllDecimal n) ∙ dec_value-dec n

dec-Unsigned : (n : ℕ) → Unsigned (dec n)
dec-Unsigned n = (
  digits-Lacks b'+' (dec n) (inl (omega arith)) (dec-AllDigits n),
  digits-Lacks b'-' (dec n) (inl (omega arith)) (dec-AllDigits n),
)

-- a text of its own
terms_alone : (s : Text) → Unsigned s → terms s ≡ (s, [])
terms_alone s h =
    ap terms (sym (append-nil s))
    ∙ terms-Unsigned s [] h
    ∙ ap (λ (t : Text). (t, [])) (append-nil s)

-- signed terms whose sum is a displacement
abbrev IsSum : (Text → ℕ) → ℤ → Text → Type 0
IsSum env i t =
    (ts : List (Bool × Text)) × (terms t ≡ ([], ts)) × (sum env ts % u64_mod ≡ to_u64 i % u64_mod)

addend-IsSum : (env : Text → ℕ) (i : ℤ) → IsSum env i (print_addend i false)
unfolding print_addend dec_int
addend-IsSum env (negsuc n) = (
  (false, dec (suc n)) ∷ [],
  ap (λ (t : Text × List (Bool × Text)). ([], (false, t.0) ∷ t.1))
      (terms_alone (dec (suc n)) (dec-Unsigned (suc n))),
  rw (term-dec env (suc n)) (omega arith),
)
addend-IsSum env (pos n) = elim (Bool-cases (n == 0)) [
  | inl e ↦ ([], rw e refl, ground (arith, e))
  | inr e ↦ (
    (true, dec n) ∷ [],
    rw e (
        ap (λ (t : Text × List (Bool × Text)). ([], (true, t.0) ∷ t.1))
          (terms_alone (dec n) (dec-Unsigned n))),
    rw (term-dec env n) (omega arith),
  )
]

terms_first :
    (s d : Text) (ts : List (Bool × Text))
    → Unsigned s
    → terms d ≡ ([], ts)
    → terms (s ++ d) ≡ (s, ts)
terms_first s d ts h e =
    terms-Unsigned s d h
    ∙ ap (λ (t : Text × List (Bool × Text)). (s ++ t.0, t.1)) e
    ∙ ap (λ (t : Text). (t, ts)) (append-nil s)

-- a sum modulo 2 ^ 64, with one part known modulo 2 ^ 64
sum_last :
    (a b c d : ℕ) → c % u64_mod ≡ d % u64_mod → (a + (b + c)) % u64_mod ≡ (a + b + d) % u64_mod
sum_last a b c d h = omega (arith, h)

sum_only_base : (a c d : ℕ) → c % u64_mod ≡ d % u64_mod → (a + c) % u64_mod ≡ (a + 0 + d) % u64_mod
sum_only_base a c d h = omega (arith, h)

sum_only_index : (a c d : ℕ) → c % u64_mod ≡ d % u64_mod → (a + c) % u64_mod ≡ (0 + a + d) % u64_mod
sum_only_index a c d h = omega (arith, h)

register-Unsigned : (s : Text) → IsRegister s → Unsigned s
register-Unsigned s (_, p, m, _, _, _) = (p, m)

scaled-Unsigned : (s : Text) (k : ℕ) → IsRegister s → Unsigned (s ++ (b'*' ∷ dec k))
scaled-Unsigned s k (_, p, m, _, _, _) = (
  Lacks-append b'+' s (b'*' ∷ dec k) p (omega arith, (dec-Unsigned k).0),
  Lacks-append b'-' s (b'*' ∷ dec k) m (omega arith, (dec-Unsigned k).1),
)

-- the sum of the parts of an address, in each of the ways to write it
module _ (env : Text → ℕ) (i : ℤ) where
  base_only :
      (b : Text)
      → IsRegister b
      → total env (terms (b ++ print_addend i false)) ≡ (env b + 0 + to_u64 i) % u64_mod
  base_only b h =
      let (ts, e, q) = addend-IsSum env i in
      ap (total env) (terms_first b (print_addend i false) ts (register-Unsigned b h) e)
      ∙ ap (λ (n : ℕ). (n + sum env ts) % u64_mod) (term-register env b h)
      ∙ sum_only_base (env b) (sum env ts) (to_u64 i) q

  index_only :
      (x : Text) (k : ℕ)
      → IsRegister x
      → total env (terms ((x ++ (b'*' ∷ dec k)) ++ print_addend i false))
        ≡ (0 + env x * k + to_u64 i) % u64_mod
  index_only x k h =
      let (ts, e, q) = addend-IsSum env i in
      ap (total env)
        (terms_first (x ++ (b'*' ∷ dec k)) (print_addend i false) ts (scaled-Unsigned x k h) e)
      ∙ ap (λ (n : ℕ). (n + sum env ts) % u64_mod) (term-scaled env x k h)
      ∙ sum_only_index (env x * k) (sum env ts) (to_u64 i) q

  both :
      (b x : Text) (k : ℕ)
      → IsRegister b
      → IsRegister x
      → total env (terms (b ++ (b'+' ∷ ((x ++ (b'*' ∷ dec k)) ++ print_addend i false))))
        ≡ (env b + env x * k + to_u64 i) % u64_mod
  both b x k h l =
      let (ts, e, q) = addend-IsSum env i in
      let t = x ++ (b'*' ∷ dec k) in
      let tail = terms_first t (print_addend i false) ts (scaled-Unsigned x k l) e in
      ap (total env) (
        terms_first b (b'+' ∷ (t ++ print_addend i false)) ((true, t) ∷ ts) (register-Unsigned b h)
          (ap (λ (r : Text × List (Bool × Text)). ([], (true, r.0) ∷ r.1)) tail))
      ∙ ap (λ (n : ℕ). (n + (term env t + sum env ts)) % u64_mod) (term-register env b h)
      ∙ ap (λ (n : ℕ). (env b + (n + sum env ts)) % u64_mod) (term-scaled env x k l)
      ∙ sum_last (env b) (env x * k) (sum env ts) (to_u64 i) q

number_only :
    (env : Text → ℕ) (i : ℤ)
    → total env (terms (print_addend i true)) ≡ (0 + 0 + to_u64 i) % u64_mod
unfolding print_addend dec_int
number_only env (pos n) =
    ap (total env) (terms_alone (dec n) (dec-Unsigned n))
    ∙ ap (λ (m : ℕ). (m + 0) % u64_mod) (term-dec env n)
    ∙ omega arith
number_only env (negsuc n) =
    ap (λ (t : Text × List (Bool × Text)). total env ([], (false, t.0) ∷ t.1))
      (terms_alone (dec (suc n)) (dec-Unsigned (suc n)))
    ∙ ap (λ (m : ℕ). (0 + (u64_mod - m % u64_mod + 0)) % u64_mod) (term-dec env (suc n))
    ∙ omega arith

-- the text between the brackets
abbrev pub body_text : Printer → X86Mem → Text
body_text p m =
    ((if absent p m.base then [] else get_register_name p m.base) ++ index_text p m)
    ++ print_addend m.disp (absent p m.base && absent p m.index)

-- the address of a memory operand, where the registers have the values of `env`
abbrev pub effective : Printer → (Text → ℕ) → X86Mem → ℕ
effective p env m =
    ((if absent p m.base then 0 else env (get_register_name p m.base))
      + (if absent p m.index then 0 else env (get_register_name p m.index) * m.scale)
      + to_u64 m.disp)
    % u64_mod

module _ (p : Printer)
    (names : (r : ℕ) → absent p r ≡ false → IsRegister (get_register_name p r)) where
  pub body_text-effective :
      (env : Text → ℕ) (m : X86Mem) → total env (terms (body_text p m)) ≡ effective p env m
  unfolding index_text
  body_text-effective env m = elim (Bool-cases (absent p m.base)) [
    | inl b ↦ elim (Bool-cases (absent p m.index)) [
      | inl i ↦ rw (b, i) (number_only env m.disp)
      | inr i ↦
          rw (b, i) (index_only env m.disp (get_register_name p m.index) m.scale (names m.index i))
    ]
    | inr b ↦ elim (Bool-cases (absent p m.index)) [
      | inl i ↦
          rw (b, i, append-nil) (base_only env m.disp (get_register_name p m.base) (names m.base b))
      | inr i ↦
          rw (b, i, append_assoc)
            (both env m.disp (get_register_name p m.base) (get_register_name p m.index) m.scale
              (names m.base b) (names m.index i))
    ]
  ]
