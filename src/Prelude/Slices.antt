-- ===== src/Prelude/Slices.antt =====
-- Byte slices: `bytes[i]`, `bytes[a..b]` and `bytes[a..]`, which panic out of range, `bytes.get(a..b)`,
-- which does not, and the predicate that one part of a buffer stands at an offset.
use Prim.Native.Nat.{ℕ, zero, suc, ◌+◌, ◌-◌, ◌≤◌}
use native.Mathlib.Omega.{arith}
use mathlib.Core.Path.{subst, ◌≡◌, refl, ap, sym, ◌∙◌}
use mathlib.Core.Bool.{◌&&◌}
use mathlib.Core.List.{List, [], ◌∷◌, ◌++◌, append_assoc, append-nil}
use mathlib.Core.Option.{Option, none, some}
use hyperdex_rs.Prelude.Lists.{
  length, take, drop, get_elem?, length-append, length-drop, take-append, drop-append, drop-drop,
}
use hyperdex_rs.Prelude.Tests.{leb, if◌then◌else◌, le→leb}
use hyperdex_rs.Prelude.Outcome.{Result, ok, panic}

unfoldable pub index {κ} : {E : Type κ} → List ℕ → ℕ → Result ℕ E
index bytes i = elim (get_elem? bytes i) [ none ↦ panic | some b ↦ ok b ]

unfoldable pub get_range : List ℕ → ℕ → ℕ → Option (List ℕ)
get_range bytes a b =
    if leb a b && leb b (length bytes) then some (take (b - a) (drop a bytes)) else none

unfoldable pub slice {κ} : {E : Type κ} → List ℕ → ℕ → ℕ → Result (List ℕ) E
unfolding get_range
slice bytes a b = elim (get_range bytes a b) [ none ↦ panic | some xs ↦ ok xs ]

unfoldable pub slice_from {κ} : {E : Type κ} → List ℕ → ℕ → Result (List ℕ) E
slice_from bytes a = if leb a (length bytes) then ok (drop a bytes) else panic

-- From `offset` on, the buffer is `xs` and then `rest`.
pub record At (bytes : List ℕ) (offset : ℕ) (xs rest : List ℕ) : Type 0 where
  pub suffix : drop offset bytes ≡ xs ++ rest
  pub inside : offset ≤ length bytes

module _ {bytes : List ℕ} {offset : ℕ} {xs rest : List ℕ} (at : At bytes offset xs rest) where
  pub At-length : length bytes ≡ offset + length xs + length rest
  At-length =
      omega (arith, at.inside, length-drop offset bytes, ap length at.suffix, length-append xs rest)

  pub At-next : At bytes (offset + length xs) rest []
  At-next = record {
    suffix =
        sym (drop-drop (length xs) offset bytes)
        ∙ ap (drop (length xs)) at.suffix
        ∙ drop-append xs rest
        ∙ sym (append-nil rest);
    inside = omega (arith, At-length);
  }

  pub get_range-At : get_range bytes offset (offset + length xs) ≡ some xs
  unfolding get_range
  get_range-At =
      let width : offset + length xs - offset ≡ length xs = omega arith in
      rw (
        le→leb offset (offset + length xs) (omega arith),
        le→leb (offset + length xs) (length bytes) (omega (arith, At-length)),
        width,
        at.suffix,
        take-append,
      )

  pub slice-At {κ} : {E : Type κ} → slice {E = E} bytes offset (offset + length xs) ≡ ok xs
  unfolding slice
  slice-At = rw (get_range-At, slice)

  pub slice_from-At {κ} : {E : Type κ} → slice_from {E = E} bytes offset ≡ ok (xs ++ rest)
  unfolding slice_from
  slice_from-At = rw (le→leb _ _ at.inside, at.suffix)

pub At-whole : (xs rest : List ℕ) → At (xs ++ rest) 0 xs rest
At-whole xs rest = record { suffix = refl; inside = omega arith }

module _ {bytes : List ℕ} {offset : ℕ} (xs ys : List ℕ) {rest : List ℕ}
    (at : At bytes offset (xs ++ ys) rest) where
  pub At-left : At bytes offset xs (ys ++ rest)
  At-left = record { suffix = at.suffix ∙ append_assoc xs ys rest; inside = at.inside }

  pub At-right : At bytes (offset + length xs) ys rest
  At-right = record {
    suffix =
        sym (drop-drop (length xs) offset bytes)
        ∙ ap (drop (length xs)) (at.suffix ∙ append_assoc xs ys rest)
        ∙ drop-append xs (ys ++ rest);
    inside = omega (arith, At-length at, length-append xs ys);
  }

get_elem?-drop :
    (i : ℕ) (bytes : List ℕ) {x : ℕ} {rest : List ℕ}
    → drop i bytes ≡ x ∷ rest
    → get_elem? bytes i ≡ some x
get_elem?-drop zero [] h = cc
get_elem?-drop zero (b ∷ bs) h = cc
get_elem?-drop (suc i) [] h = cc
get_elem?-drop (suc i) (b ∷ bs) h = get_elem?-drop i bs h

pub index-At {κ} :
    {E : Type κ} {bytes : List ℕ} {offset x : ℕ} {xs rest : List ℕ}
    → At bytes offset (x ∷ xs) rest
    → index {E = E} bytes offset ≡ ok x
unfolding index
index-At {bytes} {offset} at = rw (get_elem?-drop offset bytes at.suffix, index)

pub At-second : (head xs rest : List ℕ) → At ((head ++ xs) ++ rest) (length head) xs rest
At-second head xs rest = record {
  suffix = rw append_assoc (drop-append head (xs ++ rest));
  inside = omega (arith, length-append (head ++ xs) rest, length-append head xs);
}

-- The same, past a field whose width is known.
pub At-step :
    {bytes : List ℕ} {offset : ℕ} (xs ys : List ℕ) {rest : List ℕ} (n : ℕ)
    → length xs ≡ n
    → At bytes offset (xs ++ ys) rest
    → At bytes (offset + n) ys rest
At-step {bytes} {offset} xs ys {rest} n e at =
    subst (λ (k : ℕ). At bytes (offset + k) ys rest) e (At-right xs ys at)

pub At-end : (head xs : List ℕ) → At (head ++ xs) (length head) xs []
At-end head xs = record {
  suffix = drop-append head xs ∙ sym (append-nil xs);
  inside = omega (arith, length-append head xs);
}

pub At-all : (xs : List ℕ) → At xs 0 xs []
At-all xs = record { suffix = sym (append-nil xs); inside = omega arith }

pub At-offset :
    {bytes : List ℕ} {m n : ℕ} {xs rest : List ℕ} → m ≡ n → At bytes m xs rest → At bytes n xs rest
At-offset {bytes} {m} {n} {xs} {rest} e at = subst (λ (k : ℕ). At bytes k xs rest) e at

-- The same, for a field whose width is known.
module _ {bytes : List ℕ} {offset : ℕ} {xs rest : List ℕ} (n : ℕ) (e : length xs ≡ n)
    (at : At bytes offset xs rest) where
  pub get_range-At_width : get_range bytes offset (offset + n) ≡ some xs
  get_range-At_width =
      subst (λ (k : ℕ). get_range bytes offset (offset + k) ≡ some xs) e (get_range-At at)

  pub slice-At_width {κ} : {E : Type κ} → slice {E = E} bytes offset (offset + n) ≡ ok xs
  unfolding slice
  slice-At_width = rw (get_range-At_width, slice)

-- The same, for a field whose end is known.
module _ {κ} {E : Type κ} {bytes : List ℕ} {offset : ℕ} {xs rest : List ℕ} (n : ℕ)
    (e : offset + length xs ≡ n) (at : At bytes offset xs rest) where
  pub slice-At_end : slice {E = E} bytes offset n ≡ ok xs
  slice-At_end = subst (λ (k : ℕ). slice {E = E} bytes offset k ≡ ok xs) e (slice-At at)

  pub slice_from-At_end : slice_from {E = E} bytes n ≡ ok rest
  slice_from-At_end =
      subst (λ (k : ℕ). slice_from {E = E} bytes k ≡ ok rest) e
        (slice_from-At (At-next at) ∙ ap ok (append-nil rest))
