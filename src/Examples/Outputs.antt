-- ===== src/Examples/Outputs.antt =====
-- The output of a command, cut into chunks in the middle of a line.
use aiops_platform.Common.{◌≡◌, refl, false, List, [], ◌∷◌, ◌++◌, Text, codes}
use aiops_platform.Workspace.Redaction.{
  Target, next_segment, write_segments, write, flush, new_writer, write_chunks,
}
use aiops_platform.Workspace.Redaction.Segments.{has_break}
use aiops_platform.Workspace.Redaction.Conserved.{flat, IsDelivered, write_chunks-IsDelivered}
use aiops_platform.Workspace.Redaction.Cleared.{write-clears}

abbrev starred : Target
starred = record { redact = λ s. codes "*" ++ s; refuses = λ written s. false }

abbrev line_end : Text
line_end = 10 ∷ []

abbrev chunks_of_output : List Text
chunks_of_output = codes "fa" ∷ (codes "tal" ++ line_end ++ codes "en") ∷ codes "d" ∷ []

redacts_lines :
    (write_chunks starred new_writer chunks_of_output).written ≡ (codes "*fatal" ++ line_end) ∷ []
unfolding write_chunks write write_segments next_segment
redacts_lines = refl

flushes_rest :
    (flush starred (write_chunks starred new_writer chunks_of_output)).0.written
    ≡ (codes "*fatal" ++ line_end) ∷ codes "*end" ∷ []
unfolding flush write_chunks write write_segments next_segment
flushes_rest = refl

write_chunks-IsDelivered_example :
    IsDelivered starred (flat chunks_of_output) (write_chunks starred new_writer chunks_of_output)
write_chunks-IsDelivered_example = write_chunks-IsDelivered starred chunks_of_output

accepted_write : (write starred new_writer (codes "a" ++ line_end)).1 ≡ false
unfolding write write_segments next_segment
accepted_write = refl

write-clears_example : has_break (write starred new_writer (codes "a" ++ line_end)).0.buf ≡ false
write-clears_example = write-clears starred new_writer (codes "a" ++ line_end) accepted_write
