-- ===== src/Http/Body.antt =====
-- ZstdMiddlewareWithLimit of internal/httpapi/zstd.go: the body that the handlers read. A limit is
-- an int64, so the sum with one wraps.
use Prim.Native.Char.{Char}
use Prim.Native.String.{◌++◌}
use rw_node_go.Common.{
  take, length-take, sym, ap, ◌∙◌, Bool-cases, inl, inr, refl, ◌≡◌, ◌≤◌, arith, ℕ, ◌+◌, ◌<◌, ◌&&◌,
  String, List, [], length, ltb, leb, if◌then◌else◌, Option, none, some, Result, ok, err,
}
use rw_node_go.Http.Tokens.{equal_fold}

abbrev pub Bytes : Type 0
Bytes = List ℕ

-- What the zstd decoder gives: the bytes, and the error that ends them, if any.
pub record Decoded : Type 0 where
  pub content : Bytes
  pub failed : Option String

-- The outcome for the next handler: a body, with the header Content-Encoding gone or not, or an
-- answer with its status and text.
pub data Forwarded : Type 0 where
  forward : Bytes → Forwarded
  answer : ℕ → String → Forwarded

abbrev pub ended : Option String → Bytes → Result Bytes
ended none content = ok content
ended (some e) content = err e

-- io.ReadAll: the error of a reader loses the bytes.
unfoldable pub read_all : Decoded → Result Bytes
read_all decoded = ended decoded.failed decoded.content

-- io.ReadAll of an io.LimitReader: after n bytes it reads no further, and sees no error.
unfoldable pub read_limited : ℕ → Decoded → Result Bytes
unfolding take read_all
read_limited n decoded =
    let whole = read_all decoded in
    if leb n (length decoded.content) then ok (take n decoded.content) else whole

-- 2 ^ 63 - 1
abbrev pub max_int64 : ℕ
max_int64 = 9223372036854775807

-- int64 limit + 1, as the count of bytes that a LimitReader still reads: none when the sum wraps.
unfoldable pub one_more : ℕ → ℕ
one_more limit = if ltb limit max_int64 then limit + 1 else 0

unfoldable pub within_limit : ℕ → Result Bytes → Forwarded
within_limit limit (err e) = answer 400 ("decode zstd body: " ++ e)
within_limit limit (ok body) =
    if ltb 0 limit && ltb limit (length body)
    then answer 413 "Request Entity Too Large"
    else forward body

-- The branch for a body in zstd; `err` is a decoder that cannot be made.
unfoldable pub decode_body : ℕ → Result Decoded → Forwarded
unfolding within_limit read_limited read_all one_more
decode_body limit (err e) = answer 400 ("decode zstd body: " ++ e)
decode_body limit (ok decoded) =
    let limited = read_limited (one_more limit) decoded in
    let whole = read_all decoded in within_limit limit (if ltb 0 limit then limited else whole)

unfoldable pub zstd_middleware_with_limit :
    (Char → Char) → (Bytes → Result Decoded) → ℕ → String → Bytes → Forwarded
unfolding decode_body equal_fold
zstd_middleware_with_limit fold new_reader limit encoding body =
    let decoded = decode_body limit (new_reader body) in
    if equal_fold fold encoding "zstd" then decoded else forward body

ended-ok :
    (failed : Option String) (content body : Bytes)
    → ended failed content ≡ ok body
    → (body ≡ content) × (failed ≡ none)
ended-ok none content body h = (cc, refl)
ended-ok (some e) content body h = cc

-- Fewer bytes than the limit are all of them.
read_limited-ok :
    (n : ℕ) (decoded : Decoded) (body : Bytes)
    → read_limited n decoded ≡ ok body
    → length body < n
    → (body ≡ decoded.content) × (decoded.failed ≡ none)
unfolding read_limited read_all
read_limited-ok n decoded body h short = elim (Bool-cases (leb n (length decoded.content))) [
  | inl e ↦
      let cut : ok (take n decoded.content) ≡ ok body = (simp e at h) in
      let same : take n decoded.content ≡ body = cc cut in
      let full = length-take n decoded.content (ground arith) in
      let lengths : length body ≡ n = sym (ap length same) ∙ full in
      let never : ⊥ = omega arith in elim never [ ]
  | inr e ↦ ended-ok decoded.failed decoded.content body (simp e at h)
]

within_limit-forward :
    (limit : ℕ) (r : Result Bytes) (body : Bytes)
    → within_limit limit r ≡ forward body
    → (r ≡ ok body) × (0 < limit → length body ≤ limit)
unfolding within_limit
within_limit-forward limit (err e) body h = cc
within_limit-forward limit (ok b) body h = elim (Bool-cases (ltb 0 limit && ltb limit (length b))) [
  | inl e ↦ cc (simp e at h)
  | inr e ↦ let same : b ≡ body = cc (simp e at h) in (ap ok same, rw (← same) (λ p. ground arith))
]

one_more_small : (limit : ℕ) → limit < max_int64 → one_more limit ≡ limit + 1
unfolding one_more
one_more_small limit h = ground arith

read_limited_zero : (decoded : Decoded) → read_limited 0 decoded ≡ ok []
unfolding read_limited take
read_limited_zero decoded = ground arith

-- A zstd body that is passed on is all that the decoder gave, without an error, and not longer than
-- the limit, where there is one. The limit is below 2 ^ 63 - 1.
pub decode_body_whole :
    (limit : ℕ) (made : Result Decoded) (body : Bytes)
    → limit < max_int64
    → decode_body limit made ≡ forward body
    → (decoded : Decoded) × (made ≡ ok decoded)
      × (body ≡ decoded.content)
      × (decoded.failed ≡ none)
      × (0 < limit → length body ≤ limit)
unfolding decode_body read_all
decode_body_whole limit (err e) body small h = cc
decode_body_whole limit (ok decoded) body small h =
    let (read, bounded) = within_limit-forward limit _ body h in
    elim (Bool-cases (ltb 0 limit)) [
      | inl e ↦
          let limited : read_limited (limit + 1) decoded ≡ ok body =
            (simp (e, one_more_small limit small) at read) in
          let (same, fine) = read_limited-ok (limit + 1) decoded body limited (ground arith) in
          (decoded, refl, same, fine, bounded)
      | inr e ↦
          let (same, fine) = ended-ok decoded.failed decoded.content body (simp e at read) in
          (decoded, refl, same, fine, bounded)
    ]

-- At the largest limit the sum wraps, and the handlers get an empty body in place of any zstd body.
pub decode_body_wraps : (decoded : Decoded) → decode_body max_int64 (ok decoded) ≡ forward []
unfolding decode_body one_more within_limit read_limited take
decode_body_wraps decoded = ap (within_limit max_int64) (read_limited_zero decoded)
