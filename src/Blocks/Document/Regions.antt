-- ===== src/Blocks/Document/Regions.antt =====
-- The sections of a module as regions of its addresses, for the headers that `print` of
-- src/gtirb_pprinter/PrettyPrinter.cpp writes.
use gtirb_pprinter.Prelude.{
  ℕ, ◌+◌, ◌≤◌, ◌<◌, ◌==◌, if◌then◌else◌, Bool, true, false, contains, Option, none, some, List, [],
  ◌∷◌, head_of, ◌≡◌, ◌⊎◌, inl, inr, arith, ap, ◌∙◌,
}
use gtirb_pprinter.Gtirb.{Section}
use gtirb_pprinter.Printer.{Printer, skip_ea, get_container_section, is_in_skipped_section}
use gtirb_pprinter.Blocks.{Item, item_address, item_size}
use gtirb_pprinter.Blocks.Document.{opened}

pub record Region : Type 0 where
  pub first : ℕ
  pub size : ℕ
  pub section : Section

abbrev pub sections_on : Option Region → List Section
sections_on none = []
sections_on (some r) = r.section ∷ []

abbrev pub sections_at : ℕ → Option Region → List Section
sections_at a none = []
sections_at a (some r) = if r.first == a then r.section ∷ [] else []

-- Each address is in one section at most, and the queries of the module find it.
pub record IsMap (p : Printer) (region : ℕ → Option Region) : Type 0 where
  pub on : (a : ℕ) → p.module_.find_sections_on a ≡ sections_on (region a)
  pub start : (a : ℕ) → p.module_.find_sections_at a ≡ sections_at a (region a)
  pub inside : (a : ℕ) (r : Region) → region a ≡ some r → (r.first ≤ a) × (a < r.first + r.size)
  pub filled :
      (a b : ℕ) (r : Region)
      → region a ≡ some r
      → r.first ≤ b
      → b < r.first + r.size
      → region b ≡ some r

-- The element is in a section, from its first byte to its last.
abbrev pub IsWithin : (ℕ → Option Region) → Item → Type 0
IsWithin region i =
    (r : Region) × (region (item_address i) ≡ some r)
    × (item_address i + item_size i ≤ r.first + r.size)

abbrev pub HasAddress : ℕ → List Item → Type 0
HasAddress a [] = ⊥
HasAddress a (i ∷ is) = (item_address i ≡ a) ⊎ HasAddress a is

-- one of the elements is at the first address of the section that the element is in
abbrev pub IsOpened : (ℕ → Option Region) → List Item → Item → Type 0
IsOpened region is i = (r : Region) → region (item_address i) ≡ some r → HasAddress r.first is

-- The section is skipped, or it is the current one.
abbrev pub IsCurrent : Printer → Option Section → Region → Type 0
IsCurrent p current r =
    (contains r.section.name p.policy.skip_sections ≡ true) ⊎ (current ≡ some r.section)

abbrev pub next_section : Option Section → Option Section → Option Section
next_section none current = current
next_section (some s) current = some s

module _ (p : Printer) (region : ℕ → Option Region) (m : IsMap p region) where
  pub container :
      (a : ℕ) (r : Region) → region a ≡ some r → get_container_section p a ≡ some r.section
  unfolding get_container_section
  container a r e = ap head_of (m.on a ∙ ap sections_on e)

  shown : (c : Bool) → c ≡ false → {A : Type 0} → (c ≡ true) ⊎ A → A
  shown c e (inl t) = cc
  shown c e (inr h) = h

  -- what is printed outside the debug mode
  pub skip_ea-current :
      (a : ℕ) (r : Region) (current : Option Section)
      → p.policy.debug ≡ false
      → region a ≡ some r
      → skip_ea p a ≡ false
      → IsCurrent p current r
      → current ≡ some r.section
  unfolding skip_ea is_in_skipped_section
  skip_ea-current a r current d e h =
      shown (contains r.section.name p.policy.skip_sections) (ground (arith, d, h, container a r e))

  starting :
      (a : ℕ) (r : Region)
      → region a ≡ some r
      → p.module_.find_sections_at a ≡ sections_at a (some r)
  starting a r e = m.start a ∙ ap (sections_at a) e

  pub opened-IsCurrent :
      (a : ℕ) (r : Region) (current : Option Section)
      → region a ≡ some r
      → (a ≡ r.first) ⊎ IsCurrent p current r
      → IsCurrent p (next_section (opened p a) current) r
  unfolding opened
  opened-IsCurrent a r current e h = rw (starting a r e, opened) (ground (arith, h))
