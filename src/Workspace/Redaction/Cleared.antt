-- ===== src/Workspace/Redaction/Cleared.antt =====
-- A write takes every segment that is complete.
use aiops_platform.Common.{
  ℕ, zero, suc, ◌≤◌, ◌≡◌, refl, ap, Bool, true, false, Option, none, some, [], ◌∷◌, ◌++◌, Text,
  length, length-append, arith, if◌then◌else◌,
}
use aiops_platform.Workspace.Redaction.{Target, RedactingWriter, passed, write_segments, write}
use aiops_platform.Workspace.Redaction.Segments.{
  IsSegment, ended, longer, has_break, IsCut, uncut, cut, next_segment-IsCut,
}

segment_length : {s : Text} → IsSegment s → 1 ≤ length s
segment_length (ended c e) = omega arith
segment_length (longer c s e k) = omega arith

empty_has_none : (s : Text) → length s ≤ 0 → has_break s ≡ false
unfolding has_break
empty_has_none [] h = refl
empty_has_none (c ∷ s) h = absurd (omega (arith, h))

module _ (t : Target) where
  -- Unless the call failed, no break is left in the buffer.
  abbrev Clears : RedactingWriter × Bool → Type 0
  Clears v = v.1 ≡ false → has_break v.0.buf ≡ false

  write_segments-Clears :
      (fuel : ℕ) (w : RedactingWriter) → length w.buf ≤ fuel → Clears (write_segments t fuel w)
  unfolding write_segments
  write_segments-Clears zero w h = λ accepted. empty_has_none w.buf h
  write_segments-Clears (suc fuel) w h =
      stepped (next_segment-IsCut w.buf) λ v k. write_segments-Clears fuel v k
    where
      tested :
          (b : Bool) (v : RedactingWriter × Bool) → Clears v → Clears (if b then (w, true) else v)
      tested true v k = λ e. cc
      tested false v k = k

      stepped :
          {o : Option (Text × Text)}
          → IsCut w.buf o
          → ((v : RedactingWriter) → length v.buf ≤ fuel → Clears (write_segments t fuel v))
          → Clears (elim o as (λ x. RedactingWriter × Bool) [
            | none ↦ (w, false)
            | some (segment, rest) ↦
                if t.refuses w.written (t.redact segment)
                then (w, true)
                else write_segments t fuel (record (passed t w segment) { buf = rest })
          ])
      stepped (uncut e) later = λ accepted. e
      stepped (cut segment rest e s) later =
          tested (t.refuses w.written (t.redact segment)) _
            (later _ (omega (arith, h, ap length e, length-append segment rest, segment_length s)))

-- A write that returns no error leaves no newline and no carriage return in the buffer, so that
-- every segment that the output has completed is passed on; its fuel, the length of the buffer, is
-- enough.
pub write-clears :
    (t : Target) (w : RedactingWriter) (p : Text)
    → (write t w p).1 ≡ false
    → has_break (write t w p).0.buf ≡ false
unfolding write
write-clears t w p =
    write_segments-Clears t (length (w.buf ++ p)) (record w { buf = w.buf ++ p }) (omega arith)
