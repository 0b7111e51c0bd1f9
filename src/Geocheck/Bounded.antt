-- ===== src/Geocheck/Bounded.antt =====
-- What the bounded buffer of internal/geocheck/geocheck.go lets through of a command's output.
use rw_node_go.Common.{
  ℕ, ◌+◌, ◌≤◌, ◌<◌, ◌≡◌, ◌≢◌, if_cases, refl, sym, ap, ◌∙◌, false, Option, none, some, String, List,
  [], ◌∷◌, ◌++◌, length, length-append, ltb, arith, Bool-cases, inl, inr, ◌↔◌,
}
use mathlib.Core.List.{append_assoc, append-nil}
use rw_node_go.Geocheck.{
  Bytes, LimitedBuffer, Process, write, copy_chunks, run_error, output, ExecError, failed,
}
use rw_node_go.Geocheck.Runner.{output_of, exec_output}

-- The buffer holds at most its maximum.
abbrev pub IsBounded : LimitedBuffer → Type 0
IsBounded b = 0 < b.max → length b.content ≤ b.max

-- All that a command wrote.
abbrev pub joined : List Bytes → Bytes
joined [] = []
joined (p ∷ chunks) = p ++ joined chunks

write-IsBounded : (p : Bytes) (b : LimitedBuffer) → IsBounded b → IsBounded (write p b).1
unfolding write
write-IsBounded p b h = ground (arith, length-append b.content p)

write_full :
    (p : Bytes) (b : LimitedBuffer)
    → 0 < b.max
    → b.max < length b.content + length p
    → (write p b).0 ≡ some "output exceeds limit"
unfolding write
write_full p b h big = ground arith

write_fits :
    (p : Bytes) (b : LimitedBuffer)
    → length b.content + length p ≤ b.max
    → write p b ≡ (none, record b { content = b.content ++ p })
unfolding write
write_fits p b h = ground arith

-- Output that fits is kept whole.
copy_fits :
    (chunks : List Bytes) (b : LimitedBuffer)
    → length b.content + length (joined chunks) ≤ b.max
    → copy_chunks chunks b ≡ (none, record b { content = b.content ++ joined chunks })
unfolding copy_chunks
copy_fits [] b h = ap (λ c. (none, record b { content = c })) (sym (append-nil b.content))
copy_fits (p ∷ chunks) b h =
    let fits = write_fits p b (omega (arith, length-append p (joined chunks))) in
    rw fits (
      copy_fits chunks (record b { content = b.content ++ p })
        (omega (arith, length-append p (joined chunks), length-append b.content p))
      ∙ ap (λ c. (none, record b { content = c })) (append_assoc b.content p (joined chunks)))

-- Output that does not fit ends in an error.
copy_full :
    (chunks : List Bytes) (b : LimitedBuffer)
    → 0 < b.max
    → length b.content ≤ b.max
    → b.max < length b.content + length (joined chunks)
    → (e : String) × ((copy_chunks chunks b).0 ≡ some e)
unfolding copy_chunks
copy_full [] b h small big = let never : ⊥ = omega arith in elim never [ ]
copy_full (p ∷ chunks) b h small big = elim (Bool-cases (ltb b.max (length b.content + length p))) [
  | inl e ↦ let full = write_full p b h (ground arith) in ("output exceeds limit", rw full refl)
  | inr e ↦
      let fit : length b.content + length p ≤ b.max = ground arith in
      let fits = write_fits p b fit in
      rw fits (
        copy_full chunks (record b { content = b.content ++ p }) h
          (omega (arith, length-append b.content p))
          (omega (arith, length-append p (joined chunks), length-append b.content p)))
]

abbrev empty_buffer : ℕ → LimitedBuffer
empty_buffer max = record { content = []; max = max; too_large = false }

run_error_exit : (exit : Option ExecError) → run_error exit none ≡ exit
run_error_exit none = refl
run_error_exit (some e) = refl

output_of_error :
    (digits_of : ℕ → String) (max : ℕ) (e : ExecError) (b : LimitedBuffer) (content : Bytes)
    → output_of digits_of max (some e) b ≢ output content
output_of_error digits_of max e b content h = elim (if_cases b.too_large h) [
  | inl l ↦ cc
  | inr r ↦ cc
]

copied_error :
    (digits_of : ℕ → String) (max : ℕ) (exit : Option ExecError) (content : Bytes) (text : String)
    (copied : Option String × LimitedBuffer)
    → copied.0 ≡ some text
    → output_of digits_of max (run_error exit copied.0) copied.1 ≢ output content
copied_error digits_of max exit content text (none, b) stops h = cc
copied_error digits_of max none content text (some e, b) stops h =
    output_of_error digits_of max (failed e) b content h
copied_error digits_of max (some f) content text (some e, b) stops h =
    output_of_error digits_of max f b content h

output_of_inv :
    (digits_of : ℕ → String) (max : ℕ) (e : Option ExecError) (b : LimitedBuffer) (content : Bytes)
    → output_of digits_of max e b ≡ output content
    → (e ≡ none) × (b.content ≡ content)
output_of_inv digits_of max none b content h = (refl, cc)
output_of_inv digits_of max (some e) b content h =
    elim (output_of_error digits_of max e b content h) [ ]

-- A run of a command has an output exactly when the command ended without an error and wrote at most
-- the limit, and the output is then all that it wrote. The limit is above 0.
pub exec_output_iff :
    (digits_of : ℕ → String) (process : Process) (max : ℕ) (content : Bytes)
    → 0 < max
    → (exec_output digits_of process max ≡ output content) ↔ (
        (process.exit ≡ none)
        × (content ≡ joined process.chunks)
        × (length (joined process.chunks) ≤ max))
unfolding exec_output
exec_output_iff digits_of process max content positive = (
  λ h. elim (Bool-cases (ltb max (length (joined process.chunks)))) [
    | inl e ↦
        let big : max < 0 + length (joined process.chunks) = ground arith in
        let (text, stops) =
          copy_full process.chunks (empty_buffer max) positive (omega arith) big in
        elim (copied_error digits_of max process.exit content text _ stops h) [ ]
    | inr e ↦
        let small : 0 + length (joined process.chunks) ≤ max = ground arith in
        let fits = copy_fits process.chunks (empty_buffer max) small in
        let (ended, same) =
          output_of_inv digits_of max (run_error process.exit none) _ content (rw fits at h) in
        (sym (run_error_exit process.exit) ∙ ended, sym same, omega arith)
  ],
  λ (ended, same, small).
      let fits : 0 + length (joined process.chunks) ≤ max = omega arith in
      rw (copy_fits process.chunks (empty_buffer max) fits) (rw ended (ap output (sym same))),
)
