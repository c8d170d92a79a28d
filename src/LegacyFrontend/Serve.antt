-- ===== src/LegacyFrontend/Serve.antt =====
-- The loops of the server on a connection: they end, and requests are answered in order.
use hyperdex_rs.Prelude.{
  ℕ, zero, suc, ◌+◌, ◌<◌, ◌≤◌, ◌≡◌, ◌≢◌, refl, ap, sym, ◌∙◌, List, [], ◌∷◌, ◌++◌, Option, none,
  some, arith, length, length-drop, drop, ◌⊎◌, inl, inr, lt→ltb, lt_or_le, append_assoc, append-nil,
  All,
}
use hyperdex_rs.Prelude.{Result, ok, err, panic}
use hyperdex_rs.Prelude.Words.{to_be_bytes}
use hyperdex_rs.LegacyProtocol.Header.{
  RequestHeader, ResponseHeader, max_busybee_frame_size, encode_request_frame,
  encode_response_frame,
}
use hyperdex_rs.LegacyProtocol.Header.RoundTrip.{IsRequestHeader}
use hyperdex_rs.LegacyFrontend.{
  Connection, FrontendError, Round, again, done, handle_frame, read_round, read_request_frame,
  Outcome, answer, after_read, serve_connection_with,
}
use hyperdex_rs.LegacyFrontend.Read.{
  read_request_frame-request, read_request_frame-done, read_request_frame-again,
}

-- What is left to read behind a round.
abbrev left : Round → List ℕ
left (again c) = c.input
left (done r c) = c.input

left-handle_frame :
    (id raw : ℕ) (bytes : List ℕ) (c : Connection) → left (handle_frame id raw bytes c) ≡ c.input
unfolding handle_frame
left-handle_frame id raw bytes c = ground arith

-- A round takes at least the four bytes of a length word off the input.
read_round_consumes :
    (id : ℕ) (c : Connection)
    → 4 ≤ length c.input
    → length (left (read_round id c)) < length c.input
unfolding read_round
read_round_consumes id c h =
    let rest = drop 4 c.input in grind (arith, length-drop, left-handle_frame)

-- A round that is too short for a length word is the end of the connection.
read_round-end :
    (id : ℕ) (c : Connection)
    → length c.input < 4
    → read_round id c ≡ done (ok none) (record c { input = [] })
unfolding read_round
read_round-end id c h = rw (lt→ltb (length c.input) 4 h)

-- A read that came to an end: at the end of the connection, or with less input left.
record Read (before : Connection)
    (found : Option (Result (Option (RequestHeader × List ℕ)) FrontendError × Connection))
    : Type 0 where
  result : Result (Option (RequestHeader × List ℕ)) FrontendError
  after : Connection
  returns : found ≡ some (result, after)
  ends : (result ≡ ok none) ⊎ (length after.input < length before.input)

ends_round :
    (fuel id : ℕ) (c : Connection) (round : Round)
    → ((c' : Connection)
        → length c'.input < length c.input
        → Read c' (read_request_frame fuel id c'))
    → read_round id c ≡ round
    → length (left round) < length c.input
    → Read c (read_request_frame (suc fuel) id c)
ends_round fuel id c (again c') later e less =
    let rest = later c' less in
    record {
      result = rest.result;
      after = rest.after;
      returns = read_request_frame-again fuel id c c' e ∙ rest.returns;
      ends = elim rest.ends [ inl end ↦ inl end | inr shorter ↦ inr (omega arith) ];
    }
ends_round fuel id c (done r c') later e less = record {
  result = r;
  after = c';
  returns = read_request_frame-done fuel id c c' e;
  ends = inr less;
}

read_request_frame_ends :
    (fuel id : ℕ) (c : Connection) → length c.input < fuel → Read c (read_request_frame fuel id c)
read_request_frame_ends zero id c h = absurd (omega arith)
read_request_frame_ends (suc fuel) id c h = elim (lt_or_le (length c.input) 4) [
  | inl short ↦ record {
    result = ok none;
    after = record c { input = [] };
    returns =
        read_request_frame-done fuel id c (record c { input = [] }) (read_round-end id c short);
    ends = inl refl;
  }
  | inr long ↦
      ends_round fuel id c (read_round id c)
        (λ c' less. read_request_frame_ends fuel id c' (omega arith)) refl
        (read_round_consumes id c long)
]

-- A server's read of a request ends on every input, once it has more rounds than there are bytes:
-- it never waits for more than the peer sent.
pub read_request_frame-ne-none :
    (fuel id : ℕ) (c : Connection) → length c.input < fuel → read_request_frame fuel id c ≢ none
read_request_frame-ne-none fuel id c h e = let read = read_request_frame_ends fuel id c h in cc

-- The bytes of requests that are sent in one go, and of the responses to them.
abbrev pub requests_bytes : List (RequestHeader × List ℕ) → List ℕ
requests_bytes [] = []
requests_bytes ((header, body) ∷ requests) =
    encode_request_frame header body ++ requests_bytes requests

pub record IsRequest (request : RequestHeader × List ℕ) : Type 0 where
  pub header : IsRequestHeader request.0
  pub fits : 30 + length request.1 ≤ max_busybee_frame_size

abbrev pub responses_bytes : List (ResponseHeader × List ℕ) → List ℕ
responses_bytes [] = []
responses_bytes ((response, body) ∷ responses) =
    encode_response_frame response body ++ responses_bytes responses

module _ {S E : Type 0}
    (handler : S → RequestHeader → List ℕ → Result (ResponseHeader × List ℕ) E × S) where
  answer_ends :
      (serve : S → Connection → Option (Outcome handler)) (c : Connection)
      → ((s : S) (c' : Connection) → c'.input ≡ c.input → serve s c' ≢ none)
      → (given : Result (ResponseHeader × List ℕ) E × S) → answer handler serve c given ≢ none
  unfolding answer
  answer_ends serve c later (ok (response, response_body), s) =
      later s (record c { output = c.output ++ encode_response_frame response response_body }) refl
  answer_ends serve c later (err e, s) = λ e. cc
  answer_ends serve c later (panic, s) = λ e. cc

  after_read_ends :
      (serve : S → Connection → Option (Outcome handler)) (s : S) (n : ℕ)
      → (result : Result (Option (RequestHeader × List ℕ)) FrontendError) (c : Connection)
      → (result ≡ ok none) ⊎ (length c.input < n)
      → ((s' : S) (c' : Connection) → length c'.input < n → serve s' c' ≢ none)
      → after_read handler serve s (some (result, c)) ≢ none
  unfolding after_read
  after_read_ends serve s n (ok none) c ends later = λ e. cc
  after_read_ends serve s n (ok (some (header, body))) c (inl end) later = λ e. cc
  after_read_ends serve s n (ok (some (header, body))) c (inr less) later =
      answer_ends serve c (λ s' c' same. later s' c' (omega (arith, ap length same)))
        (handler s header body)
  after_read_ends serve s n (err e) c ends later = λ e. cc
  after_read_ends serve s n panic c ends later = λ e. cc

  -- The loop that serves a connection ends on every input, whatever the handler does, once it has
  -- more rounds than there are bytes.
  pub serve_connection_with-ne-none :
      (fuel id : ℕ) (s : S) (c : Connection)
      → length c.input < fuel
      → serve_connection_with handler fuel id s c ≢ none
  unfolding serve_connection_with
  serve_connection_with-ne-none zero id s c h = absurd (omega arith)
  serve_connection_with-ne-none (suc fuel) id s c h =
      let read = read_request_frame_ends (suc (length c.input)) id c (omega arith) in
      λ e.
        after_read_ends (serve_connection_with handler fuel id) s (length c.input) read.result
          read.after read.ends
          (λ s' c' less. serve_connection_with-ne-none fuel id s' c' (omega arith))
          (rw (sym read.returns) e)

  -- The handler's answers from a state on, and the state they lead to.
  pub data Answers
      : S → List (RequestHeader × List ℕ) → List (ResponseHeader × List ℕ) → S → Type 0 where
    nil : (s : S) → Answers s [] [] s
    cons :
        (s s' s'' : S) (header : RequestHeader) (body : List ℕ)
        (requests : List (RequestHeader × List ℕ)) (response : ResponseHeader)
        (response_body : List ℕ) (responses : List (ResponseHeader × List ℕ))
        → handler s header (to_be_bytes 8 header.nonce ++ body) ≡ (ok (response, response_body), s')
        → Answers s' requests responses s''
        → Answers s ((header, body) ∷ requests) ((response, response_body) ∷ responses) s''

  -- Requests that a client sent in one go are answered in their order: the output ends with the
  -- response frames of what the handler gave, its state is the one it was led to, and the loop
  -- ends well at the end of the input. The handler answers each request and no frame is over 8 MiB.
  pub serve_connection_with_in_order :
      (fuel id : ℕ) (s s' : S) (requests : List (RequestHeader × List ℕ))
      → (responses : List (ResponseHeader × List ℕ)) (out : List ℕ) → All IsRequest requests
      → Answers s requests responses s'
      → length requests < fuel
      → serve_connection_with handler fuel id s
          (record { input = requests_bytes requests; output = out })
        ≡ some (ok tt, s', record { input = []; output = out ++ responses_bytes responses })
  unfolding serve_connection_with after_read answer
  serve_connection_with_in_order zero id s s' requests responses out good steps h =
      absurd (omega arith)
  serve_connection_with_in_order (suc fuel) id _ _ _ _ out good (nil s) h = rw (
    read_request_frame-done 0 id (record { input = []; output = out })
        (record { input = []; output = out })
        (read_round-end id (record { input = []; output = out }) (omega arith)),
    append-nil out,
  )
  serve_connection_with_in_order (suc fuel) id _ _ _ _ out good
        (cons s s' s'' header body more response response_body rest step steps) h =
      let frame = encode_response_frame response response_body in
      let fields = good.0 in
      rw (
        read_request_frame-request header body fields.header fields.fits
            (length (encode_request_frame header body ++ requests_bytes more)) id
            (requests_bytes more) out,
        step,
        serve_connection_with_in_order fuel id s' s'' more rest (out ++ frame) good.1 steps
            (omega arith),
        append_assoc out frame (responses_bytes rest),
      )
