-- ===== src/Limits/Tests.antt =====
-- Runs of privaite/middleware/limits.py, and its theorem at a concrete input.
use priv_ai_te.Prelude.{ℕ, ◌≡◌, refl, true, false, Option, none, List, [], ◌∷◌, Text, codes, arith}
use priv_ai_te.Limits.{
  Message, http_request, control, forwarded, too_large, read_body, declared_too_large,
  request_size_limit,
}
use priv_ai_te.Limits.Laws

program : Unit {0}
unfolding read_body declared_too_large request_size_limit
program = tt

-- No header value is a number here.
abbrev no_number : Text → Option ℕ
no_number value = none

abbrev two_parts : List Message
two_parts =
    http_request (codes "abc") true ∷ http_request (codes "de") false ∷ control (codes "x") ∷ []

rejected : request_size_limit no_number 4 (codes "http") [] two_parts ≡ too_large
unfolding program
rejected = refl

nothing_declared : declared_too_large no_number 5 [] ≡ false
unfolding program
nothing_declared = refl

request_size_limit_example :
    request_size_limit no_number 5 (codes "http") [] two_parts
    ≡ forwarded (http_request (codes "abcde") false ∷ control (codes "x") ∷ [])
request_size_limit_example =
    Laws.request_size_limit_lem no_number 5 [] (codes "abcde") two_parts (control (codes "x") ∷ [])
      (omega arith) nothing_declared refl
