-- ===== src/Workspace/Redaction.antt =====
-- internal/workspace/redact.go: credentialRedactingWriter. The replacement by a regular expression is
-- an argument, `redact`, and so is the writer behind it, which may refuse a text by what it has taken.
-- A call that it refuses is taken to have written nothing.
pub mod Segments
pub mod Conserved
pub mod Cleared
use aiops_platform.Common.{
  ℕ, zero, suc, ◌+◌, Bool, true, false, ◌||◌, ◌==◌, Option, none, some, List, [], ◌∷◌, ◌++◌, Text,
  is_empty, length, if◌then◌else◌,
}

pub record Target : Type 0 where
  pub redact : Text → Text
  pub refuses : List Text → Text → Bool

-- `written` is what the writer behind has taken, one text for each call.
pub record RedactingWriter : Type 0 where
  pub written : List Text
  pub buf : Text

-- A newline or a carriage return.
abbrev pub is_break : ℕ → Bool
is_break c = c == 10 || c == 13

abbrev pub onto_segment : ℕ → Option (Text × Text) → Option (Text × Text)
onto_segment c none = none
onto_segment c (some (segment, rest)) = some (c ∷ segment, rest)

-- IndexAny with both slices at the index behind it.
unfoldable pub next_segment : Text → Option (Text × Text)
next_segment [] = none
next_segment (c ∷ s) =
    let later = onto_segment c (next_segment s) in if is_break c then some (c ∷ [], s) else later

-- The writer behind one call, and whether the call returned an error.
abbrev pub passed : Target → RedactingWriter → Text → RedactingWriter
passed t w segment = record w { written = w.written ++ t.redact segment ∷ [] }

unfoldable pub write_segments : Target → ℕ → RedactingWriter → RedactingWriter × Bool
unfolding next_segment
write_segments t zero w = (w, false)
write_segments t (suc fuel) w = elim (next_segment w.buf) [
  | none ↦ (w, false)
  | some (segment, rest) ↦
      let later = write_segments t fuel (record (passed t w segment) { buf = rest }) in
      if t.refuses w.written (t.redact segment) then (w, true) else later
]

-- The fuel is one for each character.
unfoldable pub write : Target → RedactingWriter → Text → RedactingWriter × Bool
unfolding write_segments
write t w p = write_segments t (length (w.buf ++ p)) (record w { buf = w.buf ++ p })

-- The buffer is emptied on an error too.
abbrev pub flush_buffer : Target → List Text → Text → RedactingWriter × Bool
flush_buffer t written [] = (record { written = written; buf = [] }, false)
flush_buffer t written (c ∷ s) =
    if t.refuses written (t.redact (c ∷ s))
    then (record { written = written; buf = [] }, true)
    else (record { written = written ++ t.redact (c ∷ s) ∷ []; buf = [] }, false)

unfoldable pub flush : Target → RedactingWriter → RedactingWriter × Bool
flush t w = flush_buffer t w.written w.buf

abbrev pub new_writer : RedactingWriter
new_writer = record { written = []; buf = [] }

-- The calls of Write for the chunks of an output.
unfoldable pub write_chunks : Target → RedactingWriter → List Text → RedactingWriter
unfolding write
write_chunks t w [] = w
write_chunks t w (p ∷ chunks) = write_chunks t (write t w p).0 chunks
