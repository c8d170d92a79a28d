-- ===== src/AdminProtocol/PackedSpace/WellFormed.antt =====
-- The spaces that the packed-space decoder gives are well-formed, and it never panics.
use hyperdex_rs.Prelude.{
  ℕ, zero, suc, ◌≤◌, ◌<◌, ◌≡◌, ◌≢◌, refl, ap, ◌∙◌, List, [], ◌∷◌, All, arith, length, drop,
  get_elem?, leb, Option, none, some, false,
}
use hyperdex_rs.Prelude.{◌>>=◌, ◌>>◌, Ensures, Ensures-bind, Ensures-fail_if}
use hyperdex_rs.Prelude.Decoders.{Stays-then, decode_many-Stays, decode_many}
use hyperdex_rs.DataModel.Space.{Space, Subspace, AttributeDefinition}
use hyperdex_rs.AdminProtocol.Read.{expect_consumed}
use hyperdex_rs.AdminProtocol.Read.Safety.{expect_consumed-Returns}
use hyperdex_rs.AdminProtocol.PackedSpace.{
  PackedSpaceAttribute, PackedSpaceSubspace, read_word, read_string, decode_packed_attribute,
  decode_packed_subspaces, decode_packed_index, same_string, is_secret, attribute_definitions,
  rust_subspaces, check_key, build_space, decode_packed_hyperdex_space,
}
use hyperdex_rs.AdminProtocol.PackedSpace.Safety.{
  read_word-Stays, read_string-Stays, decode_packed_attribute-Stays, decode_packed_subspaces-With,
  decode_packed_index-Stays, IsBounded,
}
use hyperdex_rs.AdminProtocol.PackedSpace.Declared.{
  Declares, DeclaresAll, same_string-ne, attribute_definitions-Ensures, check_key-Ensures,
  rust_subspaces-Ensures, partitions_or_default_pos,
}

-- A subspace has a dimension at least, and each dimension is a declared attribute and not the key.
pub record IsSubspaceOf (space : Space) (subspace : Subspace) : Type 0 where
  pub inhabited : 1 ≤ length subspace.dimensions
  pub declared : All (Declares space.attributes) subspace.dimensions
  pub apart : All (λ name. name ≢ space.key_attribute) subspace.dimensions

pub record IsWellFormed (space : Space) : Type 0 where
  pub subspaces : All (IsSubspaceOf space) space.subspaces
  pub partitions : 0 < space.options.partitions
  pub fault_tolerance : space.options.fault_tolerance < 0x1_0000_0000

get_elem?-drop_one :
    (attrs : List PackedSpaceAttribute) (i : ℕ)
    → get_elem? (drop 1 attrs) i ≡ get_elem? attrs (suc i)
get_elem?-drop_one [] i = refl
get_elem?-drop_one (a ∷ attrs) i = refl

-- The name of a dimension
abbrev IsDimension : List AttributeDefinition → List ℕ → List ℕ → Type 0
IsDimension attributes key name = Declares attributes name × (name ≢ key)

attrs-IsDimension :
    (attrs : List PackedSpaceAttribute) (key : PackedSpaceAttribute)
    (attributes : List AttributeDefinition)
    → get_elem? attrs 0 ≡ some key
    → DeclaresAll (drop 1 attrs) attributes
    → (i : ℕ) (attr : PackedSpaceAttribute) → get_elem? attrs i ≡ some attr
    → is_secret attr ≡ false
    → same_string attr.name key.name ≡ false
    → IsDimension attributes key.name attr.name
attrs-IsDimension attrs key attributes first declared zero attr e s d =
    let e' : attr ≡ key = cc in
    let n = ap (λ (a : PackedSpaceAttribute). a.name) e' in
    absurd (same_string-ne attr.name key.name d n)
attrs-IsDimension attrs key attributes first declared (suc i) attr e s d =
    (declared i attr (get_elem?-drop_one attrs i ∙ e) s, same_string-ne attr.name key.name d)

All-drop_one : {A : Type 0} (P : A → Type 0) (xs : List A) → All P xs → All P (drop 1 xs)
All-drop_one P [] h = tt
All-drop_one P (x ∷ xs) h = h.1

All-left : {A : Type 0} (P Q : A → Type 0) (xs : List A) → All (λ x. P x × Q x) xs → All P xs
All-left P Q [] h = tt
All-left P Q (x ∷ xs) h = (h.0.0, All-left P Q xs h.1)

All-right : {A : Type 0} (P Q : A → Type 0) (xs : List A) → All (λ x. P x × Q x) xs → All Q xs
All-right P Q [] h = tt
All-right P Q (x ∷ xs) h = (h.0.1, All-right P Q xs h.1)

subspaces_of :
    (space : Space) (subspaces : List Subspace)
    → All
        (λ (s : Subspace).
          (1 ≤ length s.dimensions)
          × All (IsDimension space.attributes space.key_attribute) s.dimensions)
        subspaces
    → All (IsSubspaceOf space) subspaces
subspaces_of space [] h = tt
subspaces_of space (s ∷ subspaces) h = (
  record {
    inhabited = h.0.0;
    declared = All-left _ (λ name. name ≢ space.key_attribute) s.dimensions h.0.1;
    apart = All-right (Declares space.attributes) _ s.dimensions h.0.1;
  },
  subspaces_of space subspaces h.1,
)

build_space-Ensures :
    (name : List ℕ) (fault_tolerance : ℕ) (attrs : List PackedSpaceAttribute)
    (key : PackedSpaceAttribute) (subspaces : List PackedSpaceSubspace × Option ℕ)
    → get_elem? attrs 0 ≡ some key
    → All (IsBounded (length attrs)) subspaces.0
    → Ensures IsWellFormed (build_space name fault_tolerance attrs key subspaces)
unfolding build_space
build_space-Ensures name fault_tolerance attrs key subspaces first bounded =
    Ensures-bind _ _ (attribute_definitions (drop 1 attrs)) _
      (attribute_definitions-Ensures (drop 1 attrs))
      λ attributes declared.
        Ensures-bind _ _ (rust_subspaces attrs key.name (drop 1 subspaces.0)) _
          (rust_subspaces-Ensures attrs key.name (IsDimension attributes key.name)
            (attrs-IsDimension attrs key attributes first declared) (drop 1 subspaces.0)
            (All-drop_one _ subspaces.0 bounded))
          λ rust hr. Ensures-fail_if _ (leb 0x1_0000_0000 fault_tolerance) _ _ λ fits. record {
            subspaces = subspaces_of _ rust hr;
            partitions = partitions_or_default_pos subspaces.1;
            fault_tolerance = ground arith;
          }

-- The part of the decoder behind the attributes.
after_attributes :
    (bytes name : List ℕ) (fault_tolerance subspaces_len indices_len : ℕ)
    (attrs : List PackedSpaceAttribute) (cursor : ℕ)
    → cursor ≤ length bytes
    → Ensures IsWellFormed (do
      key ← check_key attrs
      (subspaces, c8) ← decode_packed_subspaces subspaces_len (length attrs) none bytes cursor
      (indices, c9) ← decode_many (decode_packed_index (length attrs)) indices_len bytes c8
      expect_consumed bytes c9
      build_space name fault_tolerance attrs key subspaces)
after_attributes bytes name fault_tolerance subspaces_len indices_len attrs cursor h =
    Ensures-bind _ _ (check_key attrs) _ (check_key-Ensures attrs) λ key first.
      Ensures-bind _ _ (decode_packed_subspaces subspaces_len (length attrs) none bytes cursor) _
        ((decode_packed_subspaces-With subspaces_len (length attrs) none).stays bytes cursor h)
        λ subspaces hs.
          Stays-then _ (decode_many (decode_packed_index (length attrs)) indices_len) bytes
            subspaces.1 _
            (decode_many-Stays _ indices_len (decode_packed_index-Stays (length attrs))) hs.2
            λ indices _ hi.
              Ensures-bind _ _ (expect_consumed bytes indices.1) _
                (expect_consumed-Returns bytes indices.1)
                λ _ _. build_space-Ensures name fault_tolerance attrs key subspaces.0 first hs.0

-- From any bytes the packed-space decoder comes back with a space or an error, and a space that it
-- gives is well-formed: each subspace has a dimension, each dimension is a declared attribute and
-- not the key, there is a partition, and the fault tolerance fits 32 bits.
pub decode_packed_hyperdex_space-Ensures :
    (bytes : List ℕ) → Ensures IsWellFormed (decode_packed_hyperdex_space bytes)
unfolding decode_packed_hyperdex_space
decode_packed_hyperdex_space-Ensures bytes =
    Stays-then _ (read_word 8) bytes 0 _ (read_word-Stays 8) (omega arith) λ id _ h1.
      Stays-then _ read_string bytes id.1 _ read_string-Stays h1 λ name _ h2.
        Stays-then _ (read_word 8) bytes name.1 _ (read_word-Stays 8) h2 λ fault_tolerance _ h3.
          Stays-then _ (read_word 2) bytes fault_tolerance.1 _ (read_word-Stays 2) h3
            λ attrs_len _ h4.
              Stays-then _ (read_word 2) bytes attrs_len.1 _ (read_word-Stays 2) h4
                λ subspaces_len _ h5.
                  Stays-then _ (read_word 2) bytes subspaces_len.1 _ (read_word-Stays 2) h5
                    λ indices_len _ h6.
                      Stays-then _ (decode_many decode_packed_attribute attrs_len.0) bytes
                        indices_len.1 _
                        (decode_many-Stays _ attrs_len.0 decode_packed_attribute-Stays) h6
                        λ attrs _ h7.
                          after_attributes bytes name.0 fault_tolerance.0 subspaces_len.0
                            indices_len.0 attrs.0 attrs.1 h7
