-- ===== src/AdminProtocol/PackedSpace/Safety.antt =====
-- The reads of the packed-space decoder stay in the buffer.
use hyperdex_rs.Prelude.{
  ℕ, zero, suc, ◌*◌, ◌<◌, ◌≡◌, List, ◌&&◌, ◌||◌, not, All, arith, length, ltb, leb, ◌==◌, Option,
  none, some,
}
use hyperdex_rs.Prelude.{Ensures-bind, Ensures-ok_or, Ensures-fail_if, Ensures-weaken, Returns}
use hyperdex_rs.Prelude.Words.{checked_add}
use hyperdex_rs.Prelude.Slices.{slice, index}
use hyperdex_rs.Prelude.Bounds.{slice-length, index-Returns}
use hyperdex_rs.Prelude.Utf8.{from_utf8}
use hyperdex_rs.Prelude.Decoders.{
  Stays, StaysWith, Stays-then, decode_many-Stays, decode_many-StaysWith, decode_many,
}
use hyperdex_rs.AdminProtocol.Codes.{AdminError}
use hyperdex_rs.AdminProtocol.Datatype.{hyperdatatype_macaroon_secret}
use hyperdex_rs.AdminProtocol.Read.{decode_varint_u64_at}
use hyperdex_rs.AdminProtocol.Read.Safety.{decode_varint_u64_at-Stays}
use hyperdex_rs.AdminProtocol.PackedSpace.{
  PackedSpaceSubspace, read_exact, read_slice_array, read_u8, read_word, read_slice, read_string,
  decode_packed_attribute, decode_packed_region, decode_subspace_attribute, agree_partitions,
  decode_packed_subspace, decode_packed_subspaces, decode_packed_index, same_string,
  hyperdex_attribute_secret,
}

-- The bytes read are as many as were asked for.
read_exact-With : (n : ℕ) → StaysWith (λ xs. length xs ≡ n) (read_exact n)
unfolding read_exact
read_exact-With n = record {
  stays = λ bytes cursor h. Ensures-ok_or _ (checked_add cursor n) _ _ λ end e.
      Ensures-fail_if _ (ltb (length bytes) end) _ _ λ room.
        Ensures-bind _ _ (slice bytes cursor end) _
          (slice-length AdminError bytes cursor end (ground arith) (ground arith))
          λ xs hx. (ground (arith, hx), ground arith, ground arith);
}

pub read_exact-Stays : (n : ℕ) → Stays (read_exact n)
read_exact-Stays n = record {
  stays = λ bytes cursor h.
      Ensures-weaken _ _ (λ r hr. (hr.1, hr.2)) (read_exact n bytes cursor)
        ((read_exact-With n).stays bytes cursor h);
}

pub read_u8-Stays : Stays read_u8
unfolding read_u8
read_u8-Stays = record {
  stays = λ bytes cursor h.
      Ensures-bind _ _ (read_exact 1 bytes cursor) _ ((read_exact-With 1).stays bytes cursor h)
        λ r hr.
          Ensures-bind _ _ (index r.0 0) _ (index-Returns AdminError r.0 0 (omega (arith, hr.0)))
            λ byte _. (hr.1, hr.2);
}

pub read_word-Stays : (n : ℕ) → Stays (read_word n)
unfolding read_word read_slice_array
read_word-Stays n = record {
  stays = λ bytes cursor h.
      Stays-then _ (read_exact n) bytes cursor _ (read_exact-Stays n) h
        λ r lo hi. ground (arith, lo, hi);
}

pub read_slice-Stays : Stays read_slice
unfolding read_slice
read_slice-Stays = record {
  stays = λ bytes cursor h.
      Stays-then _ decode_varint_u64_at bytes cursor _ decode_varint_u64_at-Stays h λ r lo hi.
        Ensures-weaken _ _ (λ q hq. omega (arith, hq.0, hq.1)) (read_exact r.0 bytes r.1)
          ((read_exact-Stays r.0).stays bytes r.1 hi);
}

pub read_string-Stays : Stays read_string
unfolding read_string
read_string-Stays = record {
  stays = λ bytes cursor h.
      Stays-then _ read_slice bytes cursor _ read_slice-Stays h
        λ r lo hi. Ensures-ok_or _ (from_utf8 r.0) _ _ λ text _. (lo, hi);
}

pub decode_packed_attribute-Stays : Stays decode_packed_attribute
unfolding decode_packed_attribute
decode_packed_attribute-Stays = record {
  stays = λ bytes cursor h.
      Stays-then _ read_string bytes cursor _ read_string-Stays h λ name lo1 hi1.
        Stays-then _ (read_word 2) bytes name.1 _ (read_word-Stays 2) hi1 λ datatype lo2 hi2.
          Ensures-fail_if _
            ((datatype.0 == hyperdatatype_macaroon_secret)
              && not (same_string name.0 hyperdex_attribute_secret))
            _ _ λ _. (omega arith, hi2);
}

pub decode_packed_region-Stays : Stays decode_packed_region
unfolding decode_packed_region
decode_packed_region-Stays = record {
  stays = λ bytes cursor h.
      Stays-then _ (read_word 8) bytes cursor _ (read_word-Stays 8) h λ id lo1 hi1.
        Stays-then _ (read_word 2) bytes id.1 _ (read_word-Stays 2) hi1 λ hashes lo2 hi2.
          Stays-then _ read_u8 bytes hashes.1 _ read_u8-Stays hi2 λ replicas lo3 hi3.
            Stays-then _ (read_exact (hashes.0 * 16)) bytes replicas.1 _
              (read_exact-Stays (hashes.0 * 16)) hi3
              λ coordinates lo4 hi4.
                Stays-then _ (read_exact (replicas.0 * 16)) bytes coordinates.1 _
                  (read_exact-Stays (replicas.0 * 16)) hi4 λ last lo5 hi5. (omega arith, hi5);
}

pub decode_subspace_attribute-With :
    (count : ℕ) → StaysWith (λ i. i < count) (decode_subspace_attribute count)
unfolding decode_subspace_attribute
decode_subspace_attribute-With count = record {
  stays = λ bytes cursor h.
      Stays-then _ (read_word 2) bytes cursor _ (read_word-Stays 2) h
        λ attr lo hi. Ensures-fail_if _ (leb count attr.0) _ _ λ below. (ground arith, lo, hi);
}

agree_partitions-Returns : (partitions : Option ℕ) (n : ℕ) → Returns (agree_partitions partitions n)
unfolding agree_partitions
agree_partitions-Returns none n = tt
agree_partitions-Returns (some m) n = ground arith

-- The attributes that a subspace refers to exist.
abbrev pub IsBounded : ℕ → PackedSpaceSubspace → Type 0
IsBounded count subspace = All (λ i. i < count) subspace.attrs

pub decode_packed_subspace-With :
    (count : ℕ) (partitions : Option ℕ)
    → StaysWith
        (λ (r : PackedSpaceSubspace × Option ℕ). IsBounded count r.0)
        (decode_packed_subspace count partitions)
unfolding decode_packed_subspace
decode_packed_subspace-With count partitions = record {
  stays = λ bytes cursor h.
      Stays-then _ (read_word 8) bytes cursor _ (read_word-Stays 8) h λ id lo1 hi1.
        Stays-then _ (read_word 2) bytes id.1 _ (read_word-Stays 2) hi1 λ attrs_len lo2 hi2.
          Stays-then _ (read_word 4) bytes attrs_len.1 _ (read_word-Stays 4) hi2
            λ regions_len lo3 hi3.
              Ensures-bind _ _ (agree_partitions partitions regions_len.0) _
                (agree_partitions-Returns partitions regions_len.0)
                λ partitions' _.
                  Ensures-bind _ _
                    (decode_many (decode_subspace_attribute count) attrs_len.0 bytes regions_len.1)
                    _
                    ((decode_many-StaysWith _ _ attrs_len.0
                        (decode_subspace_attribute-With count)).stays
                      bytes regions_len.1 hi3)
                    λ attrs ha.
                      Stays-then _ (decode_many decode_packed_region regions_len.0) bytes attrs.1 _
                        (decode_many-Stays _ regions_len.0 decode_packed_region-Stays) ha.2
                        λ regions lo5 hi5. (ha.0, omega (arith, ha.1), hi5);
}

pub decode_packed_subspaces-With :
    (n count : ℕ) (partitions : Option ℕ)
    → StaysWith
        (λ (r : List PackedSpaceSubspace × Option ℕ). All (IsBounded count) r.0)
        (decode_packed_subspaces n count partitions)
unfolding decode_packed_subspaces
decode_packed_subspaces-With zero count partitions = record {
  stays = λ bytes cursor h. (tt, omega arith, h);
}
decode_packed_subspaces-With (suc n) count partitions = record {
  stays = λ bytes cursor h.
      Ensures-bind _ _ (decode_packed_subspace count partitions bytes cursor) _
        ((decode_packed_subspace-With count partitions).stays bytes cursor h)
        λ r hr.
          Ensures-bind _ _ (decode_packed_subspaces n count r.0.1 bytes r.1) _
            ((decode_packed_subspaces-With n count r.0.1).stays bytes r.1 hr.2)
            λ q hq. ((hr.0, hq.0), omega (arith, hr.1, hq.1), hq.2);
}

pub decode_packed_index-Stays : (count : ℕ) → Stays (decode_packed_index count)
unfolding decode_packed_index
decode_packed_index-Stays count = record {
  stays = λ bytes cursor h. Stays-then _ read_u8 bytes cursor _ read_u8-Stays h λ type lo1 hi1.
      Ensures-fail_if _ (not ((type.0 == 0) || (type.0 == 1))) _ _ λ _.
        Stays-then _ (read_word 8) bytes type.1 _ (read_word-Stays 8) hi1 λ id lo2 hi2.
          Stays-then _ (read_word 2) bytes id.1 _ (read_word-Stays 2) hi2 λ attr lo3 hi3.
            Ensures-fail_if _ (leb count attr.0) _ _ λ _.
              Stays-then _ read_slice bytes attr.1 _ read_slice-Stays hi3
                λ extra lo4 hi4. (omega arith, hi4);
}
