-- ===== src/Att/Parts.antt =====
-- The parts of the memory operands that src/gtirb_pprinter/AttPrettyPrinter.cpp writes.
use gtirb_pprinter.Prelude.{
  ℕ, ◌-◌, ◌%◌, suc, ◌==◌, if◌then◌else◌, Bool, true, false, Text, codes, Option, none, some, [],
  ◌∷◌, ◌++◌, ◌≡◌, ◌≢◌, refl, arith, ap, ◌∙◌, sym, append_assoc, append-nil, Bool-cases, inl, inr,
  ◌⊎◌,
}
use gtirb_pprinter.Prelude.Number.{
  u64_mod, dec, dec_value, hex_value-hex, dec_value-dec, AllDigits, hex-AllDigits, dec-AllDigits,
}
use gtirb_pprinter.Prelude.Int.{ℤ, pos, negsuc, to_u64, dec_int, hex_int, is_zero}
use gtirb_pprinter.Capstone.{X86Mem}
use gtirb_pprinter.Printer.{Printer}
use gtirb_pprinter.Operands.{get_register_name}
use gtirb_pprinter.Binary.{strip}
use gtirb_pprinter.Att.{has, numeric}
use gtirb_pprinter.Operands.Cutting.{
  cut, Lacks, cut-Lacks, cut_at, Lacks-append, digits-Lacks, IsMark,
}
use gtirb_pprinter.Att.Reading.{
  Inside, read_body, read_front, read_index, read_inside, read_number, read_operand, read_rest,
  read_signed,
}

abbrev pub scale_text : ℕ → Text
scale_text k = if k == 1 then [] else codes "," ++ dec k

abbrev pub index_text : Option (Text × ℕ) → Text
index_text none = []
index_text (some (n, k)) = b',' ∷ (n ++ scale_text k)

read_index-scale :
    (n : Text) (k : ℕ) → Lacks b',' n → read_index (some (n ++ scale_text k)) ≡ some (n, k)
read_index-scale n k h = elim (Bool-cases (k == 1)) [
  | inl e ↦ rw (e, append-nil, cut-Lacks b',' n h) (ap (λ j. some (n, j)) (ground (arith, e)))
  | inr e ↦ rw (e, cut_at b',' n (dec k) h, dec_value-dec) refl
]

read_body-index :
    (b n : Text) (k : ℕ)
    → Lacks b',' b
    → Lacks b',' n
    → read_body (b ++ index_text (some (n, k))) ≡ (b, some (n, k))
read_body-index b n k h l =
    rw (cut_at b',' b (n ++ scale_text k) h) (ap (λ i. (b, i)) (read_index-scale n k l))

read_body-base : (b : Text) → Lacks b',' b → read_body (b ++ []) ≡ (b, none)
read_body-base b h = rw (append-nil, cut-Lacks b',' b h) refl

-- the name of a register holds no mark
abbrev pub IsName : Text → Type 0
IsName s = Lacks b'(' s × Lacks b')' s × Lacks b',' s × Lacks b':' s × Lacks b'*' s

scale_text-Lacks : (k : ℕ) → Lacks b')' (scale_text k)
scale_text-Lacks k = elim (Bool-cases (k == 1)) [
  | inl e ↦ rw e tt
  | inr e ↦ rw e (omega arith, digits-Lacks b')' (dec k) (inl (omega arith)) (dec-AllDigits k))
]

strip-digits : (s : Text) → AllDigits s → strip (codes "0x") s ≡ none
strip-digits [] h = refl
strip-digits (c ∷ []) h = ground arith
strip-digits (c ∷ d ∷ s) (_, ((_, b, _), _)) = ground (arith, b)

read_signed-digits : (s : Text) → AllDigits s → read_signed s ≡ dec_value 0 s % u64_mod
read_signed-digits [] h = refl
read_signed-digits (c ∷ s) ((a, _, _), _) =
    let n : (c == 45) ≡ false = ground (arith, a) in rw n refl

read_number-dec_int : (i : ℤ) → read_number (dec_int i) ≡ to_u64 i
unfolding dec_int
read_number-dec_int (pos n) =
    rw
      (
        strip-digits (dec n) (dec-AllDigits n),
        read_signed-digits (dec n) (dec-AllDigits n),
        dec_value-dec,
      )
      refl
read_number-dec_int (negsuc n) = let e : suc n - 1 ≡ n = omega arith in rw (dec_value-dec, e) refl

read_number-zero : (i : ℤ) → is_zero i ≡ true → 0 ≡ to_u64 i
read_number-zero (pos n) h = ground (arith, h)
read_number-zero (negsuc n) h = absurd (ground (arith, h))

-- the three ways to write a displacement
numeric_cases :
    (p : Printer) (m : X86Mem)
    → (numeric p m ≡ codes "0x" ++ hex_int m.disp)
      ⊎ ((numeric p m ≡ dec_int m.disp) ⊎ ((numeric p m ≡ []) × (is_zero m.disp ≡ true)))
unfolding numeric
numeric_cases p m = ground arith

read_number-numeric : (p : Printer) (m : X86Mem) → read_number (numeric p m) ≡ to_u64 m.disp
read_number-numeric p m = elim (numeric_cases p m) [
  | inl e ↦ rw (e, hex_value-hex) refl
  | inr (inl e) ↦ rw e (read_number-dec_int m.disp)
  | inr (inr (e, z)) ↦ rw e (read_number-zero m.disp z)
]

dec_int-Lacks : (c : ℕ) (i : ℤ) → IsMark c → c ≢ b'-' → Lacks c (dec_int i)
unfolding dec_int
dec_int-Lacks c (pos n) m h = digits-Lacks c (dec n) m (dec-AllDigits n)
dec_int-Lacks c (negsuc n) m h =
    ((λ e. h (sym e)), digits-Lacks c (dec (suc n)) m (dec-AllDigits (suc n)))

numeric-Lacks : (c : ℕ) (p : Printer) (m : X86Mem) → IsMark c → c ≢ b'-' → Lacks c (numeric p m)
numeric-Lacks c p m k h = elim (numeric_cases p m) [
  | inl e ↦ rw e (
    ground (arith, k),
    (ground (arith, k), digits-Lacks c (hex_int m.disp) k (hex-AllDigits (to_u64 m.disp))),
  )
  | inr (inl e) ↦ rw e (dec_int-Lacks c m.disp k h)
  | inr (inr (e, z)) ↦ rw e tt
]

-- the register's name, if there is one
abbrev pub name_of : Printer → ℕ → Option Text
name_of p r = if has p r then some (get_register_name p r) else none

abbrev pub segment_text : Option Text → Text
segment_text none = []
segment_text (some n) = n ++ codes ":"

abbrev pub LacksIn : ℕ → Option Text → Type 0
LacksIn c none = Unit
LacksIn c (some n) = Lacks c n

read_front-segment :
    (b : Bool) (s : Option Text) (d : Text) (i : Option Inside)
    → LacksIn b':' s
    → Lacks b':' d
    → read_front b (cut b':' (segment_text s ++ d)) i
      ≡ record { starred = b; segment = s; offset = read_number d; inside = i }
read_front-segment b none d i h k =
    ap (λ (c : Text × Option Text). read_front b c i) (cut-Lacks b':' d k)
read_front-segment b (some n) d i h k =
    rw append_assoc (ap (λ (c : Text × Option Text). read_front b c i) (cut_at b':' n d h))

-- the text between the parentheses
abbrev pub body_text : Inside → Text
body_text (b, i) = b ++ index_text i

unfoldable pub inside_text : Option Inside → Text
inside_text none = []
inside_text (some i) = b'(' ∷ (body_text i ++ codes ")")

abbrev pub IsInside : Option Inside → Type 0
IsInside none = Unit
IsInside (some (b, none)) = Lacks b',' b × Lacks b')' b
IsInside (some (b, some (n, k))) = Lacks b',' b × Lacks b')' b × Lacks b',' n × Lacks b')' n

IsInside-body_text : (i : Inside) → IsInside (some i) → Lacks b')' (body_text i)
IsInside-body_text (b, none) (_, l) = Lacks-append b')' b [] l tt
IsInside-body_text (b, some (n, k)) (_, l, _, m) =
    Lacks-append b')' b (b',' ∷ (n ++ scale_text k)) l
      (omega arith, Lacks-append b')' n (scale_text k) m (scale_text-Lacks k))

read_body-body_text : (i : Inside) → IsInside (some i) → read_body (body_text i) ≡ i
read_body-body_text (b, none) (h, _) = read_body-base b h
read_body-body_text (b, some (n, k)) (h, _, l, _) = read_body-index b n k h l

read_inside-body_text :
    (i : Inside) → IsInside (some i) → read_inside (some (body_text i ++ codes ")")) ≡ some i
read_inside-body_text i h =
    ap (λ (c : Text × Option Text). some (read_body c.0))
      (cut_at b')' (body_text i) [] (IsInside-body_text i h))
    ∙ ap (λ (j : Inside). some j) (read_body-body_text i h)

read_rest-lem :
    (b : Bool) (f : Text) (i : Option Inside)
    → Lacks b'(' f
    → IsInside i
    → read_rest b (f ++ inside_text i) ≡ read_front b (cut b':' f) i
unfolding inside_text
read_rest-lem b f none h k = rw append-nil (
    ap (λ (c : Text × Option Text). read_front b (cut b':' c.0) (read_inside c.1))
      (cut-Lacks b'(' f h))
read_rest-lem b f (some i) h k =
    ap (λ (c : Text × Option Text). read_front b (cut b':' c.0) (read_inside c.1))
      (cut_at b'(' f (body_text i ++ codes ")") h)
    ∙ ap (λ (j : Option Inside). read_front b (cut b':' f) j) (read_inside-body_text i k)

-- the text does not begin with the character
abbrev pub StartsOtherwise : ℕ → Text → Type 0
StartsOtherwise c [] = Unit
StartsOtherwise c (d ∷ s) = d ≢ c

read_operand-star :
    (b : Bool) (s : Text)
    → StartsOtherwise b'*' s
    → read_operand ((if b then codes "*" else []) ++ s) ≡ read_rest b s
read_operand-star true s h = refl
read_operand-star false [] h = refl
read_operand-star false (c ∷ s) h = let n : (c == b'*') ≡ false = ground arith in rw n refl

inside_text-StartsOtherwise :
    (f : Text) (i : Option Inside) → Lacks b'*' f → StartsOtherwise b'*' (f ++ inside_text i)
unfolding inside_text
inside_text-StartsOtherwise [] none h = tt
inside_text-StartsOtherwise [] (some i) h = λ e. absurd (omega (arith, e))
inside_text-StartsOtherwise (c ∷ f) i (h, _) = h

segment_text-Lacks : (c : ℕ) (s : Option Text) → b':' ≢ c → LacksIn c s → Lacks c (segment_text s)
segment_text-Lacks c none n h = tt
segment_text-Lacks c (some t) n h = Lacks-append c t (codes ":") h (n, tt)

-- The text of an operand that is written by its parts is read back.
pub read_operand-parts :
    (b : Bool) (s : Option Text) (p : Printer) (m : X86Mem) (i : Option Inside)
    → LacksIn b':' s
    → LacksIn b'(' s
    → LacksIn b'*' s
    → IsInside i
    → read_operand
        ((if b then codes "*" else []) ++ ((segment_text s ++ numeric p m) ++ inside_text i))
      ≡ record { starred = b; segment = s; offset = to_u64 m.disp; inside = i }
read_operand-parts b s p m i colon paren star h =
    let f = segment_text s ++ numeric p m in
    read_operand-star b (f ++ inside_text i) (
      inside_text-StartsOtherwise f i (
        Lacks-append b'*' (segment_text s) (numeric p m)
          (segment_text-Lacks b'*' s (λ e. absurd (omega (arith, e))) star)
          (numeric-Lacks b'*' p m (inl (omega arith)) (λ e. absurd (omega (arith, e))))))
    ∙ read_rest-lem b f i
        (Lacks-append b'(' (segment_text s) (numeric p m)
          (segment_text-Lacks b'(' s (λ e. absurd (omega (arith, e))) paren)
          (numeric-Lacks b'(' p m (inl (omega arith)) (λ e. absurd (omega (arith, e)))))
        h
    ∙ read_front-segment b s (numeric p m) i colon
        (numeric-Lacks b':' p m (inr refl) (λ e. absurd (omega (arith, e))))
    ∙ ap (λ (n : ℕ). record { starred = b; segment = s; offset = n; inside = i })
        (read_number-numeric p m)
