-- ===== src/Geocheck.antt =====
-- internal/geocheck/geocheck.go: the output of the geocheck binary. The process is a parameter: what
-- it writes, chunk by chunk, and how it ends.
pub mod Runner
pub mod Bounded
pub mod Runs
use rw_node_go.Common.{
  ℕ, ◌+◌, true, ◌&&◌, Bool, Option, none, some, String, List, [], ◌∷◌, ◌++◌, length, ltb,
  if◌then◌else◌,
}

abbrev pub Bytes : Type 0
Bytes = List ℕ

pub record LimitedBuffer : Type 0 where
  pub content : Bytes
  pub max : ℕ
  pub too_large : Bool

-- An error of a Write, and the buffer after it.
unfoldable pub write : Bytes → LimitedBuffer → Option String × LimitedBuffer
write p b =
    if ltb 0 b.max && ltb b.max (length b.content + length p)
    then (some "output exceeds limit", record b { too_large = true })
    else (none, record b { content = b.content ++ p })

-- How a command fails.
pub data ExecError : Type 0 where
  not_found : ExecError
  failed : String → ExecError

-- A command that ran: what it wrote, how it ended by itself, and whether the context had ended by then.
pub record Process : Type 0 where
  pub chunks : List Bytes
  pub exit : Option ExecError
  pub expired : Bool

abbrev pub first_error :
    Option String → LimitedBuffer → Option String × LimitedBuffer → Option String × LimitedBuffer
first_error (some e) b later = (some e, b)
first_error none b later = later

-- os/exec copies the output into the writer up to the first error of a Write.
unfoldable pub copy_chunks : List Bytes → LimitedBuffer → Option String × LimitedBuffer
unfolding write
copy_chunks [] b = (none, b)
copy_chunks (p ∷ chunks) b =
    let (e, b') = write p b in let later = copy_chunks chunks b' in first_error e b' later

-- cmd.Run: its own error stands before that of the copy.
abbrev pub run_error : Option ExecError → Option String → Option ExecError
run_error (some e) copied = some e
run_error none (some e) = some (failed e)
run_error none none = none

pub data Output : Type 0 where
  output : Bytes → Output
  no_output : ExecError → Output
