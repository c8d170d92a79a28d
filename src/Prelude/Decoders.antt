-- ===== src/Prelude/Decoders.antt =====
-- Decoders that read an item of a buffer at an offset and move the offset behind it, and
-- `for _ in 0..count { … }` with such a decoder in its body.
use Prim.Native.Nat.{ℕ, zero, suc, ◌+◌, ◌*◌, ◌<◌, ◌≤◌}
use native.Mathlib.Omega.{arith}
use mathlib.Core.Path.{◌≡◌}
use mathlib.Core.List.{List, [], ◌∷◌, ◌++◌}
use hyperdex_rs.Prelude.Lists.{length, length-append, All}
use hyperdex_rs.Prelude.Outcome.{Result, ok, ◌>>=◌, Ensures, Ensures-bind}
use hyperdex_rs.Prelude.Words.{u64_mod}
use hyperdex_rs.Prelude.Slices.{At, At-left, At-right}

abbrev pub DecoderOf : Type 0 → Type 0 → Type 0
DecoderOf E A = List ℕ → ℕ → Result (A × ℕ) E

unfoldable pub encode_many : {A : Type 0} → (A → List ℕ) → List A → List ℕ
encode_many encode [] = []
encode_many encode (a ∷ rest) = encode a ++ encode_many encode rest

module _ {E A : Type 0} where
  unfoldable pub decode_many : DecoderOf E A → ℕ → DecoderOf E (List A)
  decode_many item zero bytes offset = ok ([], offset)
  decode_many item (suc count) bytes offset = do
    (a, next) ← item bytes offset
    (rest, end) ← decode_many item count bytes next
    ok (a ∷ rest, end)

  -- Where the encoding of a good value stands, the decoder reads that value and stops behind it.
  pub record Reads (encode : A → List ℕ) (decode : DecoderOf E A) (Good : A → Type 0) : Type 0 where
    pub reads :
        (bytes : List ℕ) (offset : ℕ) (a : A) (rest : List ℕ)
        → At bytes offset (encode a) rest
        → length bytes < u64_mod
        → Good a
        → decode bytes offset ≡ ok (a, offset + length (encode a))

  -- From an offset in the buffer the decoder does not panic, and stops at an offset in the buffer.
  pub record Stays (decode : DecoderOf E A) : Type 0 where
    pub stays :
        (bytes : List ℕ) (offset : ℕ)
        → offset ≤ length bytes
        → Ensures (λ (r : A × ℕ). (offset ≤ r.1) × (r.1 ≤ length bytes)) (decode bytes offset)

module _ {E A : Type 0} (encode : A → List ℕ) (decode : DecoderOf E A) (Good : A → Type 0)
    (item : Reads encode decode Good) where
  pub decode_many-reads :
      (xs : List A) (bytes : List ℕ) (offset : ℕ) (rest : List ℕ)
      → At bytes offset (encode_many encode xs) rest
      → length bytes < u64_mod
      → All Good xs
      → decode_many decode (length xs) bytes offset
        ≡ ok (xs, offset + length (encode_many encode xs))
  unfolding decode_many encode_many
  decode_many-reads [] bytes offset rest at small good = ground arith
  decode_many-reads (a ∷ xs) bytes offset rest at small good =
      rw
        (
          item.reads bytes offset a _ (At-left (encode a) (encode_many encode xs) at) small good.0,
          decode_many-reads xs bytes (offset + length (encode a)) rest
              (At-right (encode a) (encode_many encode xs) at) small good.1,
        )
        (ground (arith, length-append (encode a) (encode_many encode xs)))

  pub length-encode_many :
      (k : ℕ) (xs : List A)
      → ((a : A) → k ≤ length (encode a))
      → k * length xs ≤ length (encode_many encode xs)
  unfolding encode_many
  length-encode_many k [] h = omega arith
  length-encode_many k (a ∷ xs) h =
      omega
        (arith, length-append (encode a) (encode_many encode xs), h a, length-encode_many k xs h)

pub decode_many-Stays :
    {E A : Type 0} (decode : DecoderOf E A) (count : ℕ)
    → Stays decode
    → Stays (decode_many decode count)
unfolding decode_many
decode_many-Stays decode zero item = record { stays = λ bytes offset h. omega arith }
decode_many-Stays decode (suc count) item = record {
  stays = λ bytes offset h.
      Ensures-bind _ _ (decode bytes offset) _ (item.stays bytes offset h) λ r hr.
        Ensures-bind _ _ (decode_many decode count bytes r.1) _
          ((decode_many-Stays decode count item).stays bytes r.1 hr.1) λ q hq. omega arith;
}

-- A decoder, and then whatever reads on behind it.
pub Stays-then {κ} :
    {E A : Type 0} {B : Type κ} (Q : B → Type 0) (decode : DecoderOf E A) (bytes : List ℕ)
    (offset : ℕ) (k : A × ℕ → Result B E)
    → Stays decode
    → offset ≤ length bytes
    → ((r : A × ℕ) → offset ≤ r.1 → r.1 ≤ length bytes → Ensures Q (k r))
    → Ensures Q (decode bytes offset >>= k)
Stays-then Q decode bytes offset k item h next =
    Ensures-bind _ Q (decode bytes offset) k (item.stays bytes offset h) λ r hr. next r hr.0 hr.1

-- The items satisfy a predicate, too.
pub record StaysWith {E A : Type 0} (P : A → Type 0) (decode : DecoderOf E A) : Type 0 where
  pub stays :
      (bytes : List ℕ) (offset : ℕ)
      → offset ≤ length bytes
      → Ensures (λ (r : A × ℕ). P r.0 × (offset ≤ r.1) × (r.1 ≤ length bytes)) (decode bytes offset)

pub decode_many-StaysWith :
    {E A : Type 0} (P : A → Type 0) (decode : DecoderOf E A) (count : ℕ)
    → StaysWith P decode
    → StaysWith (All P) (decode_many decode count)
unfolding decode_many
decode_many-StaysWith P decode zero item = record { stays = λ bytes offset h. (tt, omega arith, h) }
decode_many-StaysWith P decode (suc count) item = record {
  stays = λ bytes offset h.
      Ensures-bind _ _ (decode bytes offset) _ (item.stays bytes offset h) λ r hr.
        Ensures-bind _ _ (decode_many decode count bytes r.1) _
          ((decode_many-StaysWith P decode count item).stays bytes r.1 hr.2)
          λ q hq. ((hr.0, hq.0), omega (arith, hr.1, hq.1), hq.2);
}
