-- ===== src/AdminProtocol/PackedSpace/Declared.antt =====
-- What the packed-space decoder declares: the attributes, and the dimensions of the subspaces.
use hyperdex_rs.Prelude.{
  ℕ, zero, suc, ◌≤◌, ◌<◌, ◌≡◌, ◌≢◌, refl, ap, ◌∙◌, ◌⊎◌, inl, inr, List, [], ◌∷◌, All, arith, length,
  get_elem?, ◌==◌, Option, none, some, true, false, Bool, Bool-cases, ==_refl, ◌||◌, bit_and,
  bit_or, ◌/◌,
}
use hyperdex_rs.Prelude.{Ensures, Ensures-bind, Ensures-weaken, Returns}
use hyperdex_rs.DataModel.Space.{Subspace, AttributeDefinition}
use hyperdex_rs.AdminProtocol.Datatype.{
  decode_hyperdatatype, decode_container_elem, decode_map_types, decode_primitive_hyperdatatype,
  decode_time_unit,
}
use hyperdex_rs.AdminProtocol.PackedSpace.{
  PackedSpaceAttribute, PackedSpaceSubspace, same_string, is_secret, attribute_definitions,
  subspace_dimensions, rust_subspaces, partitions_or_default, check_key,
}
use hyperdex_rs.AdminProtocol.PackedSpace.Safety.{IsBounded}

-- The name is the one of an attribute.
abbrev pub Declares : List AttributeDefinition → List ℕ → Type 0
Declares [] name = ⊥
Declares (a ∷ attributes) name = (a.name ≡ name) ⊎ Declares attributes name

same_string_refl : (xs : List ℕ) → same_string xs xs ≡ true
same_string_refl [] = refl
same_string_refl (x ∷ xs) = rw (==_refl x, same_string_refl xs)

pub same_string-ne : (xs ys : List ℕ) → same_string xs ys ≡ false → xs ≢ ys
same_string-ne xs ys h e =
    let h' : same_string ys ys ≡ false = rw e at h in cc (same_string_refl ys)

decode_primitive-Returns : (n : ℕ) → Returns (decode_primitive_hyperdatatype n)
unfolding decode_primitive_hyperdatatype
decode_primitive-Returns n = ground arith

decode_container_elem-Returns : (n : ℕ) → Returns (decode_container_elem n)
unfolding decode_container_elem
decode_container_elem-Returns n = decode_primitive-Returns (bit_and n 0x2407)

decode_map_types-Returns : (n : ℕ) → Returns (decode_map_types n)
unfolding decode_map_types
decode_map_types-Returns n = ground (
  arith,
  decode_primitive-Returns (bit_or (bit_and n 0x0038 / 8) (bit_and n 0x2400)),
  decode_primitive-Returns (bit_and n 0x2407),
)

decode_time_unit-Returns : (n : ℕ) → Returns (decode_time_unit n)
unfolding decode_time_unit
decode_time_unit-Returns n = ground arith

decode_hyperdatatype-Returns : (n : ℕ) → Returns (decode_hyperdatatype n)
unfolding decode_hyperdatatype
decode_hyperdatatype-Returns n =
    ground (
      arith,
      decode_container_elem-Returns n,
      decode_map_types-Returns n,
      decode_time_unit-Returns n,
    )

abbrev pub DeclaresAll : List PackedSpaceAttribute → List AttributeDefinition → Type 0
DeclaresAll attrs defs =
    (i : ℕ) (attr : PackedSpaceAttribute)
    → get_elem? attrs i ≡ some attr
    → is_secret attr ≡ false
    → Declares defs attr.name

skip_secret :
    (first : PackedSpaceAttribute) (attrs : List PackedSpaceAttribute)
    (defs : List AttributeDefinition)
    → is_secret first ≡ true
    → DeclaresAll attrs defs
    → DeclaresAll (first ∷ attrs) defs
skip_secret first attrs defs s k zero attr e h =
    let e' : first ≡ attr = cc in
    let h' : is_secret first ≡ false = ap is_secret e' ∙ h in absurd cc
skip_secret first attrs defs s k (suc i) attr e h = k i attr e h

declare_first :
    (first : PackedSpaceAttribute) (attrs : List PackedSpaceAttribute) (def : AttributeDefinition)
    (defs : List AttributeDefinition)
    → def.name ≡ first.name
    → DeclaresAll attrs defs
    → DeclaresAll (first ∷ attrs) (def ∷ defs)
declare_first first attrs def defs n k zero attr e h =
    let e' : first ≡ attr = cc in inl (n ∙ ap (λ (a : PackedSpaceAttribute). a.name) e')
declare_first first attrs def defs n k (suc i) attr e h = inr (k i attr e h)

-- Each attribute that is not the secret is declared.
pub attribute_definitions-Ensures :
    (attrs : List PackedSpaceAttribute) → Ensures (DeclaresAll attrs) (attribute_definitions attrs)
unfolding attribute_definitions
attribute_definitions-Ensures [] = λ i attr e h. cc
attribute_definitions-Ensures (first ∷ attrs) = elim (Bool-cases (is_secret first)) [
  | inl s ↦ rw s (
      Ensures-weaken _ _ (λ defs k. skip_secret first attrs defs s k) (attribute_definitions attrs)
        (attribute_definitions-Ensures attrs))
  | inr s ↦ rw s (
      Ensures-bind _ _ (decode_hyperdatatype first.datatype) _
        (decode_hyperdatatype-Returns first.datatype)
        λ kind _.
          Ensures-bind _ _ (attribute_definitions attrs) _ (attribute_definitions-Ensures attrs)
            λ rest k.
              declare_first first attrs (record { name = first.name; kind = kind }) rest refl k)
]

pub check_key-Ensures :
    (attrs : List PackedSpaceAttribute)
    → Ensures (λ key. get_elem? attrs 0 ≡ some key) (check_key attrs)
unfolding check_key
check_key-Ensures [] = tt
check_key-Ensures (key ∷ attrs) = ground arith

get_elem?-some :
    (attrs : List PackedSpaceAttribute) (i : ℕ)
    → i < length attrs
    → (a : PackedSpaceAttribute) × (get_elem? attrs i ≡ some a)
get_elem?-some [] i h = absurd (omega arith)
get_elem?-some (a ∷ attrs) zero h = (a, refl)
get_elem?-some (a ∷ attrs) (suc i) h = get_elem?-some attrs i (omega arith)

neither : (a b : Bool) → (a || b) ≡ false → (a ≡ false) × (b ≡ false)
neither true b h = cc
neither false true h = cc
neither false false h = (refl, refl)

module _ (attrs : List PackedSpaceAttribute) (key : List ℕ) (P : List ℕ → Type 0)
    (named : (i : ℕ) (attr : PackedSpaceAttribute)
      → get_elem? attrs i ≡ some attr
      → is_secret attr ≡ false
      → same_string attr.name key ≡ false
      → P attr.name) where
  subspace_dimensions-Ensures :
      (is : List ℕ)
      → All (λ i. i < length attrs) is
      → Ensures (All P) (subspace_dimensions attrs key is)
  unfolding subspace_dimensions
  subspace_dimensions-Ensures [] h = tt
  subspace_dimensions-Ensures (i ∷ is) h =
      let found = get_elem?-some attrs i h.0 in
      let attr = found.0 in
      let skipped = same_string attr.name key || is_secret attr in
      rw (Ensures, found.1)
        (Ensures-bind _ _ (subspace_dimensions attrs key is) _ (subspace_dimensions-Ensures is h.1)
          λ rest hr. elim (Bool-cases skipped) [
            | inl e ↦ rw e hr
            | inr e ↦
                let apart = neither (same_string attr.name key) (is_secret attr) e in
                rw e (named i attr found.1 apart.1 apart.0, hr)
          ])

  pub rust_subspaces-Ensures :
      (subspaces : List PackedSpaceSubspace)
      → All (IsBounded (length attrs)) subspaces
      → Ensures
          (All (λ (s : Subspace). (1 ≤ length s.dimensions) × All P s.dimensions))
          (rust_subspaces attrs key subspaces)
  unfolding rust_subspaces
  rust_subspaces-Ensures [] h = tt
  rust_subspaces-Ensures (s ∷ subspaces) h =
      Ensures-bind _ _ (subspace_dimensions attrs key s.attrs) _
        (subspace_dimensions-Ensures s.attrs h.0)
        λ dimensions hd.
          Ensures-bind _ _ (rust_subspaces attrs key subspaces) _
            (rust_subspaces-Ensures subspaces h.1)
            λ rest hr. elim (Bool-cases (length dimensions == 0)) [
              | inl e ↦ rw e hr
              | inr e ↦ rw e ((ground arith, hd), hr)
            ]

pub partitions_or_default_pos : (o : Option ℕ) → 0 < partitions_or_default o
unfolding partitions_or_default
partitions_or_default_pos none = omega arith
partitions_or_default_pos (some n) = ground arith
