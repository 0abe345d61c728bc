-- ===== src/Workspace/Redaction/Conserved.antt =====
-- Whole segments are redacted, and nothing is lost on the way to them.
use aiops_platform.Common.{
  ℕ, zero, suc, ◌≡◌, refl, sym, ap, ◌∙◌, Bool, true, false, Option, none, some, List, [], ◌∷◌, ◌++◌,
  map, Text, length, Bool-cases, inl, inr, if◌then◌else◌,
}
use mathlib.Core.Path.{subst}
use aiops_platform.Workspace.Redaction.{
  Target, RedactingWriter, passed, write_segments, write, flush_buffer, flush, new_writer,
  write_chunks,
}
use aiops_platform.Workspace.Redaction.Segments.{
  IsSegment, AllSegments, IsCut, uncut, cut, next_segment-IsCut,
}

unfoldable pub flat : List Text → Text
flat [] = []
flat (s ∷ rest) = s ++ flat rest

append_assoc : (l m n : Text) → (l ++ m) ++ n ≡ l ++ (m ++ n)
append_assoc [] m n = refl
append_assoc (c ∷ l) m n = ap (◌∷◌ c) (append_assoc l m n)

append_nil {ℓ} : {A : Type ℓ} (l : List A) → l ++ [] ≡ l
append_nil [] = refl
append_nil (c ∷ l) = ap (◌∷◌ c) (append_nil l)

flat-snoc : (l : List Text) (s : Text) → flat (l ++ s ∷ []) ≡ flat l ++ s
unfolding flat
flat-snoc [] s = append_nil s
flat-snoc (x ∷ l) s = ap (◌++◌ x) (flat-snoc l s) ∙ sym (append_assoc x (flat l) s)

AllSegments-snoc :
    (l : List Text) (s : Text) → AllSegments l → IsSegment s → AllSegments (l ++ s ∷ [])
AllSegments-snoc [] s h k = (k, tt)
AllSegments-snoc (x ∷ l) s h k = (h.0, AllSegments-snoc l s h.1 k)

map-snoc : (f : Text → Text) (l : List Text) (s : Text) → map f (l ++ s ∷ []) ≡ map f l ++ f s ∷ []
map-snoc f [] s = refl
map-snoc f (x ∷ l) s = ap (◌∷◌ (f x)) (map-snoc f l s)

module _ (t : Target) where
  -- Of the output `text` whole segments were passed on, each redacted, and the rest is in the buffer.
  pub record Conserves (text : Text) (w : RedactingWriter) : Type 0 where
    pub segments : List Text
    pub shown : w.written ≡ map t.redact segments
    pub whole : AllSegments segments
    pub kept : text ≡ flat segments ++ w.buf

  passed-Conserves :
      {text : Text} (w : RedactingWriter) (segment rest : Text)
      → Conserves text w
      → w.buf ≡ segment ++ rest
      → IsSegment segment
      → Conserves text (record (passed t w segment) { buf = rest })
  passed-Conserves w segment rest h split s = record {
    segments = h.segments ++ segment ∷ [];
    shown = rw (h.shown, map-snoc t.redact h.segments segment) refl;
    whole = AllSegments-snoc h.segments segment h.whole s;
    kept =
        h.kept
        ∙ ap (◌++◌ (flat h.segments)) split
        ∙ sym (append_assoc (flat h.segments) segment rest)
        ∙ ap (λ l. l ++ rest) (sym (flat-snoc h.segments segment));
  }

  write_segments-Conserves :
      {text : Text} (fuel : ℕ) (w : RedactingWriter)
      → Conserves text w
      → Conserves text (write_segments t fuel w).0
  unfolding write_segments
  write_segments-Conserves zero w h = h
  write_segments-Conserves {text = text} (suc fuel) w h =
      stepped (next_segment-IsCut w.buf) λ v k. write_segments-Conserves fuel v k
    where
      refused :
          (b : Bool) (v : RedactingWriter × Bool)
          → Conserves text v.0
          → Conserves text (if b then (w, true) else v).0
      refused true v k = h
      refused false v k = k

      stepped :
          {o : Option (Text × Text)}
          → IsCut w.buf o
          → ((v : RedactingWriter) → Conserves text v → Conserves text (write_segments t fuel v).0)
          → Conserves text
              (elim o as (λ x. RedactingWriter × Bool) [
                | none ↦ (w, false)
                | some (segment, rest) ↦
                    if t.refuses w.written (t.redact segment)
                    then (w, true)
                    else write_segments t fuel (record (passed t w segment) { buf = rest })
              ]).0
      stepped (uncut e) later = h
      stepped (cut segment rest e s) later =
          refused (t.refuses w.written (t.redact segment)) _
            (later _ (passed-Conserves w segment rest h e s))

  write-Conserves :
      {text : Text} (w : RedactingWriter) (p : Text)
      → Conserves text w
      → Conserves (text ++ p) (write t w p).0
  unfolding write
  write-Conserves w p h =
      write_segments-Conserves (length (w.buf ++ p)) (record w { buf = w.buf ++ p })
        (record {
          segments = h.segments;
          shown = h.shown;
          whole = h.whole;
          kept = ap (λ l. l ++ p) h.kept ∙ append_assoc (flat h.segments) w.buf p;
        })

  chunks-Conserves :
      (text : Text) (w : RedactingWriter) (chunks : List Text)
      → Conserves text w
      → Conserves (text ++ flat chunks) (write_chunks t w chunks)
  unfolding write_chunks flat
  chunks-Conserves text w [] h = subst (λ l. Conserves l w) (sym (append_nil text)) h
  chunks-Conserves text w (p ∷ chunks) h =
      subst (λ l. Conserves l (write_chunks t (write t w p).0 chunks))
        (append_assoc text p (flat chunks))
        (chunks-Conserves (text ++ p) (write t w p).0 chunks (write-Conserves w p h))

start-Conserves : (t : Target) → Conserves t [] new_writer
unfolding flat
start-Conserves t = record { segments = []; shown = refl; whole = tt; kept = refl }

-- The last call for a text that is not empty.
abbrev pub last_of : Target → Text → List Text
last_of t [] = []
last_of t (c ∷ s) = t.redact (c ∷ s) ∷ []

-- What is passed on of the output `text`: before the flush, and by it.
pub record IsDelivered (t : Target) (text : Text) (w : RedactingWriter) : Type 0 where
  pub conserves : Conserves t text w
  pub flushed : (flush t w).1 ≡ false → (flush t w).0.written ≡ w.written ++ last_of t w.buf
  pub emptied : (flush t w).0.buf ≡ []

flush-IsDelivered :
    (t : Target) (text : Text) (w : RedactingWriter) → Conserves t text w → IsDelivered t text w
unfolding flush
flush-IsDelivered t text w h = record {
  conserves = h;
  flushed = (cases w.written w.buf).0;
  emptied = (cases w.written w.buf).1;
}
  where
    cases :
        (written : List Text) (buf : Text)
        → ((flush_buffer t written buf).1 ≡ false
            → (flush_buffer t written buf).0.written ≡ written ++ last_of t buf)
          × ((flush_buffer t written buf).0.buf ≡ [])
    cases written [] = (λ e. sym (append_nil written), refl)
    cases written (c ∷ s) = elim (Bool-cases (t.refuses written (t.redact (c ∷ s)))) [
      | inl e ↦ rw e (λ k. cc, refl)
      | inr e ↦ rw e (λ k. refl, refl)
    ]

-- However an output is cut into chunks, and whatever the writer behind refuses: what is passed on are
-- whole segments of the output in order, each redacted on its own, and the rest of it is in the buffer;
-- a flush empties the buffer, and one that returns no error has passed on that rest, redacted, at the end.
pub write_chunks-IsDelivered :
    (t : Target) (chunks : List Text)
    → IsDelivered t (flat chunks) (write_chunks t new_writer chunks)
write_chunks-IsDelivered t chunks =
    flush-IsDelivered t (flat chunks) _
      (chunks-Conserves t [] new_writer chunks (start-Conserves t))
