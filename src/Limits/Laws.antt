-- ===== src/Limits/Laws.antt =====
-- What the size limit of privaite/middleware/limits.py lets through.
use priv_ai_te.Prelude.{
  ℕ, ◌+◌, ◌≤◌, ◌≡◌, true, false, Option, none, some, List, [], ◌∷◌, ◌++◌, append_assoc, ltb,
  if◌then◌else◌, arith, Text, codes, text_eq, length, length-append, Option-cases, inl, inr,
}
use priv_ai_te.Limits.{
  Message, http_request, control, forwarded, too_large, read_body, declared_too_large,
  request_size_limit,
}

-- The body that the messages carry, up to the one without `more_body`: a body is complete, or is
-- broken off by a control message or the end of what was received.
abbrev pub whole_body : List Message → Option (Text × List Message)
whole_body [] = none
whole_body (control kind ∷ channel) = none
whole_body (http_request chunk true ∷ channel) = elim (whole_body channel) [
  | none ↦ none
  | some r ↦ some (chunk ++ r.0, r.1)
]
whole_body (http_request chunk false ∷ channel) = some (chunk, channel)

read_body_prefix :
    (max_bytes : ℕ) (body b : Text) (channel rest : List Message)
    → whole_body channel ≡ some (b, rest)
    → read_body max_bytes body channel ≡ (
        if ltb max_bytes (length body + length b)
        then too_large
        else forwarded (http_request (body ++ b) false ∷ rest))
unfolding read_body
read_body_prefix max_bytes body b [] rest h = absurd (ground arith)
read_body_prefix max_bytes body b (control kind ∷ channel) rest h = absurd (ground arith)
read_body_prefix max_bytes body b (http_request chunk false ∷ channel) rest h = ground arith
read_body_prefix max_bytes body b (http_request chunk true ∷ channel) rest h =
    elim (Option-cases (whole_body channel)) [
      | inl e ↦ absurd (ground arith)
      | inr ((b', rest'), e) ↦ ground (
        arith,
        read_body_prefix max_bytes (body ++ chunk) b' channel rest' e,
        length-append body chunk,
        length-append chunk b',
        append_assoc body chunk b',
      )
    ]

-- With a limit, and no declared length above it, a complete body reaches the application as one
-- message, unchanged, if it is within the limit, however it was cut into messages; otherwise the
-- request is rejected.
pub request_size_limit_lem :
    (int : Text → Option ℕ) (max_bytes : ℕ) (headers : List (Text × Text)) (b : Text)
    (channel rest : List Message)
    → 1 ≤ max_bytes
    → declared_too_large int max_bytes headers ≡ false
    → whole_body channel ≡ some (b, rest)
    → request_size_limit int max_bytes (codes "http") headers channel
      ≡ (if ltb max_bytes (length b) then too_large else forwarded (http_request b false ∷ rest))
unfolding request_size_limit
request_size_limit_lem int max_bytes headers b channel rest room small h =
    ground
      (arith, read_body_prefix max_bytes [] b channel rest h, text_eq (codes "http") (codes "http"))
