-- ===== src/LegacyProtocol/Codes/Exact.antt =====
-- The codes and their decoders are inverse to one another.
use hyperdex_rs.Prelude.{ℕ, ◌≡◌, refl, sym, List, [], ◌∷◌, All, Option, none, some, arith}
use hyperdex_rs.Prelude.{◌↔◌, ok, ok_or, ◌<◌}
use hyperdex_rs.LegacyProtocol.Codes.{
  LegacyMessageType, LegacyReturnCode, LegacyPredicate, LegacyFuncallName, message_type_code,
  return_code, predicate_code, funcall_code, match_code, decode_message_type, decode_return_code,
  decode_predicate, decode_funcall_name, message_type_arms, return_code_arms, predicate_arms,
  funcall_arms, LegacyProtocolError,
}

-- If each arm's literal is the code of its value, a decoder gives only values with the code read.
match_code-exact {ℓ} :
    {A : Type ℓ} (code : A → ℕ) (arms : List (ℕ × A)) (v : ℕ) (a : A)
    → All (λ (arm : ℕ × A). arm.0 ≡ code arm.1) arms
    → match_code v arms ≡ some a
    → code a ≡ v
unfolding match_code
match_code-exact code [] v a h e = cc
match_code-exact code ((c, b) ∷ arms) v a h e =
    ground (arith, match_code-exact code arms v a h.1, h.0)

ok_or-ok {ℓ κ} :
    {A : Type ℓ} {E : Type κ} (o : Option A) (e : E) {a : A} → ok_or o e ≡ ok a → o ≡ some a
ok_or-ok none e h = cc
ok_or-ok (some b) e h = cc

pub decode_message_type-code :
    (a : LegacyMessageType) → decode_message_type (message_type_code a) ≡ ok a
unfolding decode_message_type message_type_code
decode_message_type-code LegacyMessageType.req_get = refl
decode_message_type-code _ = refl

pub decode_message_type_iff :
    (v : ℕ) (a : LegacyMessageType) → (decode_message_type v ≡ ok a) ↔ (v ≡ message_type_code a)
decode_message_type_iff v a = (
  unfold decode_message_type message_type_code in
      λ h. sym (
        match_code-exact message_type_code message_type_arms v a (omega arith)
          (ok_or-ok _ (LegacyProtocolError.unknown_message_type v) h)),
  λ h. rw h (decode_message_type-code a),
)

pub decode_return_code-code : (a : LegacyReturnCode) → decode_return_code (return_code a) ≡ ok a
unfolding decode_return_code return_code
decode_return_code-code LegacyReturnCode.success = refl
decode_return_code-code _ = refl

pub decode_return_code_iff :
    (v : ℕ) (a : LegacyReturnCode) → (decode_return_code v ≡ ok a) ↔ (v ≡ return_code a)
decode_return_code_iff v a = (
  unfold decode_return_code return_code in
      λ h. sym (
        match_code-exact return_code return_code_arms v a (omega arith)
          (ok_or-ok _ (LegacyProtocolError.unknown_return_code v) h)),
  λ h. rw h (decode_return_code-code a),
)

pub decode_predicate-code : (a : LegacyPredicate) → decode_predicate (predicate_code a) ≡ ok a
unfolding decode_predicate predicate_code
decode_predicate-code LegacyPredicate.equal = refl
decode_predicate-code _ = refl

pub decode_predicate_iff :
    (v : ℕ) (a : LegacyPredicate) → (decode_predicate v ≡ ok a) ↔ (v ≡ predicate_code a)
decode_predicate_iff v a = (
  unfold decode_predicate predicate_code in
      λ h. sym (
        match_code-exact predicate_code predicate_arms v a (omega arith)
          (ok_or-ok _ (LegacyProtocolError.unknown_predicate v) h)),
  λ h. rw h (decode_predicate-code a),
)

pub decode_funcall_name-code : (a : LegacyFuncallName) → decode_funcall_name (funcall_code a) ≡ ok a
unfolding decode_funcall_name funcall_code
decode_funcall_name-code LegacyFuncallName.set = refl
decode_funcall_name-code _ = refl

pub decode_funcall_name_iff :
    (v : ℕ) (a : LegacyFuncallName) → (decode_funcall_name v ≡ ok a) ↔ (v ≡ funcall_code a)
decode_funcall_name_iff v a = (
  unfold decode_funcall_name funcall_code in
      λ h. sym (
        match_code-exact funcall_code funcall_arms v a (omega arith)
          (ok_or-ok _ (LegacyProtocolError.unknown_funcall_name v) h)),
  λ h. rw h (decode_funcall_name-code a),
)

-- Each code has one meaning: a decoder accepts a number exactly when it is the code of the value
-- that it gives, for message types, return codes, predicates and function names.
pub codes_exact :
    (v : ℕ) (m : LegacyMessageType) (r : LegacyReturnCode) (p : LegacyPredicate)
    (f : LegacyFuncallName)
    → ((decode_message_type v ≡ ok m) ↔ (v ≡ message_type_code m))
      × ((decode_return_code v ≡ ok r) ↔ (v ≡ return_code r))
      × ((decode_predicate v ≡ ok p) ↔ (v ≡ predicate_code p))
      × ((decode_funcall_name v ≡ ok f) ↔ (v ≡ funcall_code f))
codes_exact v m r p f = (
  decode_message_type_iff v m,
  decode_return_code_iff v r,
  decode_predicate_iff v p,
  decode_funcall_name_iff v f,
)

pub return_code-lt : (r : LegacyReturnCode) → return_code r < 65536
unfolding return_code
return_code-lt LegacyReturnCode.success = omega arith
return_code-lt _ = omega arith

pub predicate_code-lt : (p : LegacyPredicate) → predicate_code p < 65536
unfolding predicate_code
predicate_code-lt LegacyPredicate.equal = omega arith
predicate_code-lt _ = omega arith
