-- ===== src/Layout/Intervals.antt =====
-- Lists of intervals: distinct UUIDs, total size, and what replacing or removing one does.
use gtirb_pprinter.Prelude.{
  ℕ, suc, ◌+◌, ◌≤◌, List, [], ◌∷◌, length, ◌≡◌, ◌≢◌, refl, ◌⊎◌, inl, inr, arith, All,
}
use gtirb_pprinter.Layout.Ir.{ByteInterval}
use gtirb_pprinter.Layout.{replace, remove}
use gtirb_pprinter.Layout.Scan.{In}

-- no interval of the list has the UUID
abbrev pub Fresh : ℕ → List ByteInterval → Type 0
Fresh u = All (λ (bi : ByteInterval). bi.uuid ≢ u)

abbrev pub Distinct : List ByteInterval → Type 0
Distinct [] = Unit
Distinct (bi ∷ bis) = Fresh bi.uuid bis × Distinct bis

abbrev pub total_size : List ByteInterval → ℕ
total_size [] = 0
total_size (bi ∷ bis) = bi.size + total_size bis

pub length-replace :
    (n : ByteInterval) (bis : List ByteInterval) → length (replace n bis) ≡ length bis
length-replace n [] = refl
length-replace n (x ∷ xs) = ground (arith, length-replace n xs)

pub Fresh-In :
    (u : ℕ) (bis : List ByteInterval) (bi : ByteInterval) → Fresh u bis → In bi bis → bi.uuid ≢ u
Fresh-In u [] bi h i = absurd i
Fresh-In u (x ∷ xs) bi (h, hs) (inl e) = rw e h
Fresh-In u (x ∷ xs) bi (h, hs) (inr i) = Fresh-In u xs bi hs i

pub Fresh-replace :
    (u : ℕ) (n : ByteInterval) (bis : List ByteInterval) → Fresh u bis → Fresh u (replace n bis)
Fresh-replace u n [] h = tt
Fresh-replace u n (x ∷ xs) (h, hs) = ground (arith, Fresh-replace u n xs hs)

pub Fresh-remove : (u v : ℕ) (bis : List ByteInterval) → Fresh u bis → Fresh u (remove v bis)
Fresh-remove u v [] h = tt
Fresh-remove u v (x ∷ xs) (h, hs) = ground (arith, Fresh-remove u v xs hs)

pub Distinct-replace :
    (n : ByteInterval) (bis : List ByteInterval) → Distinct bis → Distinct (replace n bis)
Distinct-replace n [] h = tt
Distinct-replace n (x ∷ xs) (h, hs) =
    ground (arith, Distinct-replace n xs hs, Fresh-replace x.uuid n xs h)

pub Distinct-remove : (u : ℕ) (bis : List ByteInterval) → Distinct bis → Distinct (remove u bis)
Distinct-remove u [] h = tt
Distinct-remove u (x ∷ xs) (h, hs) =
    ground (arith, Distinct-remove u xs hs, Fresh-remove x.uuid u xs h)

-- an interval of another UUID stays
pub In-replace :
    (n bi : ByteInterval) (bis : List ByteInterval)
    → bi.uuid ≢ n.uuid
    → In bi bis
    → In bi (replace n bis)
In-replace n bi [] h i = absurd i
In-replace n bi (x ∷ xs) h i = ground (arith, In-replace n bi xs h)

pub In-replace_self :
    (n bi : ByteInterval) (bis : List ByteInterval)
    → bi.uuid ≡ n.uuid
    → In bi bis
    → In n (replace n bis)
In-replace_self n bi [] h i = absurd i
In-replace_self n bi (x ∷ xs) h i = ground (arith, In-replace_self n bi xs h)

pub In-remove :
    (u : ℕ) (bi : ByteInterval) (bis : List ByteInterval)
    → bi.uuid ≢ u
    → In bi bis
    → In bi (remove u bis)
In-remove u bi [] h i = absurd i
In-remove u bi (x ∷ xs) h i = ground (arith, In-remove u bi xs h)

pub length-remove :
    (t : ByteInterval) (bis : List ByteInterval)
    → In t bis
    → suc (length (remove t.uuid bis)) ≡ length bis
length-remove t [] i = absurd i
length-remove t (x ∷ xs) i = ground (arith, length-remove t xs)

pub total_size-replace :
    (s n : ByteInterval) (bis : List ByteInterval)
    → s.uuid ≡ n.uuid
    → Distinct bis
    → In s bis
    → total_size (replace n bis) + s.size ≡ total_size bis + n.size
total_size-replace s n [] e h i = absurd i
total_size-replace s n (x ∷ xs) e (h, hs) i =
    ground (arith, total_size-replace s n xs e hs, Fresh-In x.uuid xs s h)

pub total_size-remove :
    (t : ByteInterval) (bis : List ByteInterval)
    → Distinct bis
    → In t bis
    → total_size (remove t.uuid bis) + t.size ≡ total_size bis
total_size-remove t [] h i = absurd i
total_size-remove t (x ∷ xs) (h, hs) i =
    ground (arith, total_size-remove t xs hs, Fresh-In x.uuid xs t h)

pub size-le-total_size :
    (t : ByteInterval) (bis : List ByteInterval) → In t bis → t.size ≤ total_size bis
size-le-total_size t [] i = absurd i
size-le-total_size t (x ∷ xs) i = ground (arith, size-le-total_size t xs)

pub In-remove_inv :
    (u : ℕ) (bi : ByteInterval) (bis : List ByteInterval) → In bi (remove u bis) → In bi bis
In-remove_inv u bi [] i = i
In-remove_inv u bi (x ∷ xs) i = ground (arith, In-remove_inv u bi xs)

pub In-replace_inv :
    (n bi : ByteInterval) (bis : List ByteInterval) → In bi (replace n bis) → (bi ≡ n) ⊎ In bi bis
In-replace_inv n bi [] i = inr i
In-replace_inv n bi (x ∷ xs) i = ground (arith, In-replace_inv n bi xs)

-- Where UUIDs are distinct, an interval is known by its own.
pub unique :
    (a b : ByteInterval) (bis : List ByteInterval)
    → Distinct bis
    → In a bis
    → In b bis
    → a.uuid ≡ b.uuid
    → a ≡ b
unique a b [] d i j e = absurd i
unique a b (x ∷ xs) (h, d) i j e =
    ground (arith, unique a b xs d, Fresh-In x.uuid xs a h, Fresh-In x.uuid xs b h)

pub sizes_fit :
    (s t : ByteInterval) (bis : List ByteInterval)
    → Distinct bis
    → In s bis
    → In t bis
    → s.uuid ≢ t.uuid
    → s.size + t.size ≤ total_size bis
sizes_fit s t bis d i j ne = omega (
  arith,
  total_size-remove t bis d j,
  size-le-total_size s (remove t.uuid bis) (In-remove t.uuid s bis ne i),
)
