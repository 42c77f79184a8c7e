-- ===== src/Limits.antt =====
-- privaite/middleware/limits.py: a request body that is too large is rejected while it streams in.
pub mod Laws
mod Tests
use priv_ai_te.Prelude.{
  ℕ, zero, suc, ◌+◌, Bool, true, false, not, ◌||◌, ◌==◌, Option, none, some, List, [], ◌∷◌, ◌++◌,
  ltb, if◌then◌else◌, Text, codes, text_eq, length,
}

-- The messages of an ASGI channel that matter here: a part of the body, and any other, by its type.
pub data Message : Type 0 where
  http_request : Text → Bool → Message
  control : Text → Message

-- What the middleware does with a request. A forwarded request is read from the messages listed,
-- and from the channel after them.
pub data Verdict : Type 0 where
  forwarded : List Message → Verdict
  too_large : Verdict
  -- The channel has given no further message yet.
  waiting : Verdict

-- The loop over the body, with the bytes buffered so far and the messages to come. The first message
-- of the replay stands in for all that were read.
unfoldable pub read_body : ℕ → Text → List Message → Verdict
read_body max_bytes body [] = waiting
read_body max_bytes body (control kind ∷ channel) = forwarded (control kind ∷ channel)
read_body max_bytes body (http_request chunk more_body ∷ channel) =
    let rest = read_body max_bytes (body ++ chunk) channel in
    if ltb max_bytes (length body + length chunk)
    then too_large
    else if more_body
    then rest
    else forwarded (http_request (body ++ chunk) false ∷ channel)

-- The first header of that name decides, if `int` reads its value: bytes to a number, negative ones
-- as none, since they are not above the limit.
unfoldable pub declared_too_large : (Text → Option ℕ) → ℕ → List (Text × Text) → Bool
declared_too_large int max_bytes [] = false
declared_too_large int max_bytes ((name, value) ∷ headers) =
    let rest = declared_too_large int max_bytes headers in
    if text_eq name (codes "content-length")
    then elim (int value) [ none ↦ false | some declared ↦ ltb max_bytes declared ]
    else rest

unfoldable pub request_size_limit :
    (Text → Option ℕ) → ℕ → Text → List (Text × Text) → List Message → Verdict
unfolding declared_too_large read_body
request_size_limit int max_bytes scope_type headers channel =
    if not (text_eq scope_type (codes "http")) || (max_bytes == 0)
    then forwarded channel
    else if declared_too_large int max_bytes headers
    then too_large
    else read_body max_bytes [] channel
