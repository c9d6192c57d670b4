-- ===== src/Client/Frame/Handles.antt =====
-- The descriptors that `_read_frame_with_handles` of client.py receives.
use kapsl_integrations.Prelude.{
  append_assoc, append_empty, ℕ, ◌+◌, Bool, true, false, List, [], ◌∷◌, ◌++◌, ◌≡◌, refl, sym, subst,
  ◌∙◌, ap, length, ltb, leb, Option, none, some, if◌then◌else◌,
}
use kapsl_integrations.Client.Frame.{
  Ancillary, rights, other, Event, packet, raised, ReadResult, frame, failed, waiting, FrameError,
  transport, Reading, Gathered, gathered, refused, gather, no_bytes, finish, line_of, read_loop,
  read_frame_with_handles, most_handles, stop,
}

abbrev pub descriptors_of : List Ancillary → List ℕ
descriptors_of [] = []
descriptors_of (rights descriptors ∷ more) = descriptors ++ descriptors_of more
descriptors_of (other ∷ more) = descriptors_of more

abbrev pub descriptors : List Event → List ℕ
descriptors [] = []
descriptors (packet chunk ancillary ∷ rest) = descriptors_of ancillary ++ descriptors rest
descriptors (raised ∷ rest) = descriptors rest

-- No call raises, and a message has at most one item of ancillary data.
abbrev pub is_calm : List Event → Bool
is_calm [] = true
is_calm (packet chunk [] ∷ rest) = is_calm rest
is_calm (packet chunk (item ∷ []) ∷ rest) = is_calm rest
is_calm (packet chunk (item ∷ next ∷ more) ∷ rest) = false
is_calm (raised ∷ rest) = false

-- The descriptors that the caller gets, or that the loop goes on with.
abbrev pub held : ReadResult → List ℕ
held (frame bytes handles) = handles
held (failed error) = []
held (waiting handles) = handles

-- Every descriptor is returned, or closed, or still to be received.
pub record Kept (all : List ℕ) (r : Reading) : Type 0 where
  pub at : (held r.result ++ r.closed) ++ descriptors r.rest ≡ all
  pub unclosed : (bytes handles : List ℕ) → r.result ≡ frame bytes handles → r.closed ≡ []

Kept-if :
    (all : List ℕ) (b : Bool) (r r' : Reading)
    → Kept all r
    → Kept all r'
    → Kept all (if b then r else r')
Kept-if all true r r' k k' = k
Kept-if all false r r' k k' = k'

Kept-stop :
    (all handles : List ℕ) (error : FrameError) (rest : List Event)
    → handles ++ descriptors rest ≡ all
    → Kept all (stop error handles rest)
Kept-stop all handles error rest h = record { at = h; unclosed = λ bytes hs e. cc }

Kept-finish :
    (m : ℕ) (bytes handles : List ℕ) (rest : List Event)
    → Kept (handles ++ descriptors rest) (finish m bytes handles rest)
unfolding finish
Kept-finish m bytes handles rest = Kept-if _ (no_bytes bytes) _ _ (Kept-stop _ _ _ _ refl) (
    Kept-if _ (ltb m (length bytes)) _ _ (Kept-stop _ _ _ _ refl) (record {
      at = ap (λ l. l ++ descriptors rest) (append_empty handles);
      unclosed = λ bytes' hs e. refl;
    }))

-- The handles after one message with at most one item of ancillary data.
abbrev handles_in : Gathered → List ℕ
handles_in (gathered handles) = handles
handles_in (refused error closed) = closed

handles_in-if :
    (all : List ℕ) (b : Bool) (g g' : Gathered)
    → handles_in g ≡ all
    → handles_in g' ≡ all
    → handles_in (if b then g else g') ≡ all
handles_in-if all true g g' k k' = k
handles_in-if all false g g' k k' = k'

handles_in-gather :
    (handles : List ℕ) (ancillary : List Ancillary)
    → is_calm (packet [] ancillary ∷ []) ≡ true
    → handles_in (gather handles ancillary) ≡ handles ++ descriptors_of ancillary
unfolding gather
handles_in-gather handles [] c = sym (append_empty handles)
handles_in-gather handles (other ∷ []) c = sym (append_empty handles)
handles_in-gather handles (rights fresh ∷ []) c =
    handles_in-if _ (ltb most_handles (length (handles ++ fresh))) _ _
      (ap (λ l. handles ++ l) (sym (append_empty fresh)))
      (ap (λ l. handles ++ l) (sym (append_empty fresh)))
handles_in-gather handles (first ∷ second ∷ more) c = cc

Kept-gathered :
    (all : List ℕ) (rest : List Event) (g : Gathered) (k : List ℕ → Reading)
    → handles_in g ≡ all
    → ((handles : List ℕ) → Kept (handles ++ descriptors rest) (k handles))
    → Kept
        (all ++ descriptors rest)
        (elim g [ refused error handles ↦ stop error handles rest | gathered handles ↦ k handles ])
Kept-gathered all rest (gathered handles) k h kk =
    subst (λ l. Kept (l ++ descriptors rest) (k handles)) h (kk handles)
Kept-gathered all rest (refused error handles) k h kk =
    Kept-stop _ _ _ _ (ap (λ l. l ++ descriptors rest) h)

Kept-line :
    (all : List ℕ) (o : Option (List ℕ)) (found : List ℕ → Reading) (r : Reading)
    → ((line : List ℕ) → Kept all (found line))
    → Kept all r
    → Kept all (elim o [ some line ↦ found line | none ↦ r ])
Kept-line all none found r kf k = k
Kept-line all (some line) found r kf k = kf line

calm_packet :
    (chunk : List ℕ) (ancillary : List Ancillary) (rest : List Event)
    → is_calm (packet chunk ancillary ∷ rest) ≡ true
    → (is_calm (packet [] ancillary ∷ []) ≡ true) × (is_calm rest ≡ true)
calm_packet chunk [] rest c = (refl, c)
calm_packet chunk (first ∷ []) rest c = (refl, c)
calm_packet chunk (first ∷ second ∷ more) rest c = cc

Kept-along :
    (handles fresh all : List ℕ) (rest : List Event) (r : Reading)
    → all ≡ handles ++ fresh
    → Kept (all ++ descriptors rest) r
    → Kept (handles ++ (fresh ++ descriptors rest)) r
Kept-along handles fresh all rest r h k =
    subst (λ l. Kept l r)
      (ap (λ l. l ++ descriptors rest) h ∙ append_assoc handles fresh (descriptors rest)) k

-- What the loop does with a chunk once its ancillary data is gathered.
Kept-read_loop :
    (m size : ℕ) (bytes handles : List ℕ) (events : List Event)
    → is_calm events ≡ true
    → Kept (handles ++ descriptors events) (read_loop m size bytes handles events)
unfolding read_loop
Kept-read_loop m size bytes handles [] c = record {
  at = ap (λ l. l ++ []) (append_empty handles);
  unclosed = λ bytes' hs e. cc;
}
Kept-read_loop m size bytes handles (raised ∷ rest) c = cc
Kept-read_loop m size bytes handles (packet chunk ancillary ∷ rest) c =
    let parts = calm_packet chunk ancillary rest c in
    let now = size + length chunk in
    Kept-along handles (descriptors_of ancillary) _ rest _ refl (
      Kept-gathered _ rest (gather handles ancillary) _
        (handles_in-gather handles ancillary parts.0)
        (λ all. Kept-if _ (no_bytes chunk) _ _ (Kept-stop _ _ _ _ refl) (
          Kept-line _ (line_of chunk) _ _ (λ line. Kept-finish m (bytes ++ line) all rest)
            (Kept-if _ (leb m now) _ _ (Kept-stop _ _ _ _ refl)
              (Kept-read_loop m now (bytes ++ chunk) all rest parts.1)))))

pub Kept-read_frame :
    (max_frame_bytes : ℕ) (events : List Event)
    → is_calm events ≡ true
    → Kept (descriptors events) (read_frame_with_handles max_frame_bytes events)
unfolding read_frame_with_handles
Kept-read_frame max_frame_bytes events c = Kept-read_loop max_frame_bytes 0 [] [] events c

-- While no call raises and no message has two items of ancillary data, every descriptor that has been
-- received is in the caller's hands or is closed, exactly once and in the order of their arrival.
pub read_frame_with_handles-Kept :
    (max_frame_bytes : ℕ) (events : List Event)
    → is_calm events ≡ true
    → (held (read_frame_with_handles max_frame_bytes events).result
          ++ (read_frame_with_handles max_frame_bytes events).closed)
        ++ descriptors (read_frame_with_handles max_frame_bytes events).rest
      ≡ descriptors events
read_frame_with_handles-Kept max_frame_bytes events c =
    (Kept-read_frame max_frame_bytes events c).at

-- If the first reading is still waiting, the second is the one of a call that then raises.
record Raises (target r r' : Reading) : Type 0 where
  pub at : (handles : List ℕ) → r.result ≡ waiting handles → r' ≡ target

Raises-if :
    (target : Reading) (b : Bool) (r s r' s' : Reading)
    → Raises target r r'
    → Raises target s s'
    → Raises target (if b then r else s) (if b then r' else s')
Raises-if target true r s r' s' k k' = k
Raises-if target false r s r' s' k k' = k'

Raises-stop :
    (target : Reading) (error : FrameError) (handles : List ℕ) (rest : List Event) (r : Reading)
    → Raises target (stop error handles rest) r
Raises-stop target error handles rest r = record { at = λ hs e. cc }

Raises-finish :
    (target : Reading) (m : ℕ) (bytes handles : List ℕ) (rest rest' : List Event)
    → Raises target (finish m bytes handles rest) (finish m bytes handles rest')
unfolding finish
Raises-finish target m bytes handles rest rest' =
    Raises-if target (no_bytes bytes) _ _ _ _ (Raises-stop target _ _ _ _) (
      Raises-if target (ltb m (length bytes)) _ _ _ _ (Raises-stop target _ _ _ _)
        (record { at = λ hs e. cc }))

Raises-gathered :
    (target : Reading) (g : Gathered) (rest rest' : List Event) (k k' : List ℕ → Reading)
    → ((handles : List ℕ) → Raises target (k handles) (k' handles))
    → Raises target
        (elim g [ refused error all ↦ stop error all rest | gathered all ↦ k all ])
        (elim g [ refused error all ↦ stop error all rest' | gathered all ↦ k' all ])
Raises-gathered target (gathered handles) rest rest' k k' kk = kk handles
Raises-gathered target (refused error handles) rest rest' k k' kk = Raises-stop target _ _ _ _

Raises-line :
    (target : Reading) (o : Option (List ℕ)) (k k' : List ℕ → Reading) (r r' : Reading)
    → ((line : List ℕ) → Raises target (k line) (k' line))
    → Raises target r r'
    → Raises target
        (elim o [ some line ↦ k line | none ↦ r ])
        (elim o [ some line ↦ k' line | none ↦ r' ])
Raises-line target none k k' r r' kk h = h
Raises-line target (some line) k k' r r' kk h = kk line

Raises-read_loop :
    (m size : ℕ) (bytes handles : List ℕ) (events more : List Event)
    → Raises
        (stop transport [] more)
        (read_loop m size bytes handles events)
        (read_loop m size bytes handles (events ++ raised ∷ more))
unfolding read_loop
Raises-read_loop m size bytes handles [] more = record { at = λ hs e. refl }
Raises-read_loop m size bytes handles (raised ∷ rest) more = Raises-stop _ _ _ _ _
Raises-read_loop m size bytes handles (packet chunk ancillary ∷ rest) more =
    let now = size + length chunk in
    Raises-gathered _ (gather handles ancillary) _ _ _ _ (λ all.
      Raises-if _ (no_bytes chunk) _ _ _ _ (Raises-stop _ _ _ _ _) (
        Raises-line _ (line_of chunk) _ _ _ _ (λ line. Raises-finish _ m (bytes ++ line) all _ _)
          (Raises-if _ (leb m now) _ _ _ _ (Raises-stop _ _ _ _ _)
            (Raises-read_loop m now (bytes ++ chunk) all rest more))))

-- After any part of a frame without its newline, with the handles that came with it, a call that
-- raises ends the read with nothing closed: these handles stay open in the process.
pub read_frame_with_handles-loses :
    (max_frame_bytes : ℕ) (events more : List Event) (handles : List ℕ)
    → (read_frame_with_handles max_frame_bytes events).result ≡ waiting handles
    → read_frame_with_handles max_frame_bytes (events ++ raised ∷ more) ≡ stop transport [] more
unfolding read_frame_with_handles
read_frame_with_handles-loses max_frame_bytes events more handles h =
    (Raises-read_loop max_frame_bytes 0 [] [] events more).at handles h
