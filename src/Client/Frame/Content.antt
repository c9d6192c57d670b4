-- ===== src/Client/Frame/Content.antt =====
-- The bytes that `_read_frame_with_handles` of client.py returns, against the stream of the socket.
use kapsl_integrations.Prelude.{
  ℕ, ◌+◌, ◌≤◌, ◌<◌, Bool, true, false, ◌&&◌, not, List, [], ◌∷◌, ◌++◌, ◌≡◌, refl, sym, subst, ◌∙◌,
  ap, length, ltb, leb, Option, none, some, if◌then◌else◌, inl, inr, Option-cases, ltb→ge, ltb,
  arith, length-append, ge→ltb, append_assoc, append_empty,
}
use kapsl_integrations.Client.Frame.{
  Ancillary, rights, other, Event, packet, raised, frame, FrameError, Reading, Gathered, gathered,
  refused, gather, no_bytes, finish, line_of, read_loop, read_frame_with_handles, most_handles,
  stop,
}
use kapsl_integrations.Client.Frame.Handles.{descriptors, descriptors_of}

-- The bytes that the peer sent, up to the first call that raises.
abbrev pub stream : List Event → List ℕ
stream [] = []
stream (packet chunk ancillary ∷ rest) = chunk ++ stream rest
stream (raised ∷ rest) = []

line_of-longer : (xs ys line : List ℕ) → line_of xs ≡ some line → line_of (xs ++ ys) ≡ some line
unfolding line_of
line_of-longer [] ys line h = cc
line_of-longer (x ∷ xs) ys line h = elim (Option-cases (line_of xs)) [
  | inl e ↦ ground arith
  | inr e ↦ let later = line_of-longer xs ys e.0 e.1 in ground arith
]

line_of-later :
    (xs ys line : List ℕ)
    → line_of xs ≡ none
    → line_of ys ≡ some line
    → line_of (xs ++ ys) ≡ some (xs ++ line)
unfolding line_of
line_of-later [] ys line h k = k
line_of-later (x ∷ xs) ys line h k = elim (Option-cases (line_of xs)) [
  | inl e ↦ let later = line_of-later xs ys line e k in ground arith
  | inr e ↦ ground arith
]

line_of-never : (xs ys : List ℕ) → line_of xs ≡ none → line_of ys ≡ none → line_of (xs ++ ys) ≡ none
unfolding line_of
line_of-never [] ys h k = k
line_of-never (x ∷ xs) ys h k = elim (Option-cases (line_of xs)) [
  | inl e ↦ let later = line_of-never xs ys e k in ground arith
  | inr e ↦ ground arith
]

-- A frame that the loop returns is the first line of `all`, the bytes so far and to come.
record Reads (m : ℕ) (all : List ℕ) (r : Reading) : Type 0 where
  pub at :
      (bytes handles : List ℕ)
      → r.result ≡ frame bytes handles
      → (line_of all ≡ some bytes) × ((no_bytes bytes ≡ false) × (length bytes ≤ m))

Reads-stop :
    (m : ℕ) (all : List ℕ) (error : FrameError) (handles : List ℕ) (rest : List Event)
    → Reads m all (stop error handles rest)
Reads-stop m all error handles rest = record { at = λ bytes hs e. cc }

Reads-if :
    (m : ℕ) (all : List ℕ) (b : Bool) (r r' : Reading)
    → (b ≡ true → Reads m all r)
    → (b ≡ false → Reads m all r')
    → Reads m all (if b then r else r')
Reads-if m all true r r' k k' = k refl
Reads-if m all false r r' k k' = k' refl

frame-bytes : {bs hs bs' hs' : List ℕ} → frame bs hs ≡ frame bs' hs' → bs ≡ bs'
frame-bytes e = cc

Reads-finish :
    (m : ℕ) (all bytes handles : List ℕ) (rest : List Event)
    → line_of all ≡ some bytes
    → Reads m all (finish m bytes handles rest)
unfolding finish
Reads-finish m all bytes handles rest h =
    Reads-if m all (no_bytes bytes) _ _ (λ e. Reads-stop _ _ _ _ _)
      (λ e.
        Reads-if m all (ltb m (length bytes)) _ _ (λ l. Reads-stop _ _ _ _ _)
          (λ l. record {
            at = λ bs hs q.
                subst (λ u. (line_of all ≡ some u) × ((no_bytes u ≡ false) × (length u ≤ m)))
                  (frame-bytes q) (h, (e, ltb→ge m (length bytes) l));
          }))

Reads-gathered :
    (m : ℕ) (all : List ℕ) (g : Gathered) (rest : List Event) (k : List ℕ → Reading)
    → ((handles : List ℕ) → Reads m all (k handles))
    → Reads m all
        (elim g [ refused error handles ↦ stop error handles rest | gathered handles ↦ k handles ])
Reads-gathered m all (gathered handles) rest k kk = kk handles
Reads-gathered m all (refused error handles) rest k kk = Reads-stop _ _ _ _ _

Reads-line :
    (m : ℕ) (all : List ℕ) (o : Option (List ℕ)) (k : List ℕ → Reading) (r : Reading)
    → ((line : List ℕ) → o ≡ some line → Reads m all (k line))
    → (o ≡ none → Reads m all r)
    → Reads m all (elim o [ some line ↦ k line | none ↦ r ])
Reads-line m all none k r kk h = h refl
Reads-line m all (some line) k r kk h = kk line refl

Reads-read_loop :
    (m size : ℕ) (bytes handles : List ℕ) (events : List Event)
    → line_of bytes ≡ none
    → Reads m (bytes ++ stream events) (read_loop m size bytes handles events)
unfolding read_loop
Reads-read_loop m size bytes handles [] h = record { at = λ bs hs e. cc }
Reads-read_loop m size bytes handles (raised ∷ rest) h = Reads-stop _ _ _ _ _
Reads-read_loop m size bytes handles (packet chunk ancillary ∷ rest) h =
    let now = size + length chunk in
    Reads-gathered m _ (gather handles ancillary) _ _ (λ all.
      Reads-if m _ (no_bytes chunk) _ _ (λ e. Reads-stop _ _ _ _ _)
        (λ e.
          Reads-line m _ (line_of chunk) _ _
            (λ line q. Reads-finish m _ (bytes ++ line) all _ (
              line_of-later bytes (chunk ++ stream rest) line h
                (line_of-longer chunk (stream rest) line q)))
            (λ q.
              Reads-if m _ (leb m now) _ _ (λ l. Reads-stop _ _ _ _ _)
                (λ l.
                  subst (λ u. Reads m u (read_loop m now (bytes ++ chunk) all rest))
                    (append_assoc bytes chunk (stream rest))
                    (Reads-read_loop m now (bytes ++ chunk) all rest
                      (line_of-never bytes chunk h q))))))

-- A frame that is returned is the peer's stream up to its first newline; it is not empty and within
-- the limit.
pub read_frame_with_handles-reads :
    (max_frame_bytes : ℕ) (events : List Event) (bytes handles : List ℕ)
    → (read_frame_with_handles max_frame_bytes events).result ≡ frame bytes handles
    → (line_of (stream events) ≡ some bytes)
      × ((no_bytes bytes ≡ false) × (length bytes ≤ max_frame_bytes))
unfolding read_frame_with_handles line_of
read_frame_with_handles-reads max_frame_bytes events bytes handles h =
    (Reads-read_loop max_frame_bytes 0 [] [] events refl).at bytes handles h

-- A peer that sends: no call raises and no packet is empty. The ancillary data is descriptors.
abbrev pub is_sending : List Event → Bool
is_sending [] = true
is_sending (packet chunk [] ∷ rest) = not (no_bytes chunk) && is_sending rest
is_sending (packet chunk (rights fresh ∷ []) ∷ rest) = not (no_bytes chunk) && is_sending rest
is_sending (packet chunk (_ ∷ _) ∷ rest) = false
is_sending (raised ∷ rest) = false

-- The loop returns `line`.
record Delivers (line : List ℕ) (r : Reading) : Type 0 where
  pub handles : List ℕ
  pub at : r.result ≡ frame line handles

lt→leb : (a b : ℕ) → b < a → leb a b ≡ false
lt→leb a b h = ground arith

Delivers-if :
    (line : List ℕ) (b : Bool) (r r' : Reading)
    → b ≡ false
    → Delivers line r'
    → Delivers line (if b then r else r')
Delivers-if line true r r' h k = cc
Delivers-if line false r r' h k = k

if_false : {A : Type 0} (b : Bool) (x y : A) → b ≡ false → (if b then x else y) ≡ y
if_false true x y h = cc
if_false false x y h = refl

gather_few :
    (handles : List ℕ) (chunk : List ℕ) (ancillary : List Ancillary) (rest : List Event)
    → is_sending (packet chunk ancillary ∷ rest) ≡ true
    → length (handles ++ (descriptors_of ancillary ++ descriptors rest)) ≤ most_handles
    → gather handles ancillary ≡ gathered (handles ++ descriptors_of ancillary)
unfolding gather
gather_few handles chunk [] rest s h = ap gathered (sym (append_empty handles))
gather_few handles chunk (rights fresh ∷ []) rest s h =
    let few = length-append (handles ++ fresh) (descriptors rest) in
    let same = ap length (append_assoc handles fresh (descriptors rest)) in
    let bare = ap (λ l. length (handles ++ (l ++ descriptors rest))) (append_empty fresh) in
    let fits =
      ge→ltb most_handles (length (handles ++ fresh)) (omega (arith, few, same, bare, h)) in
    if_false _ _ _ fits ∙ ap (λ l. gathered (handles ++ l)) (sym (append_empty fresh))
gather_few handles chunk (rights fresh ∷ first ∷ more) rest s h = cc
gather_few handles chunk (other ∷ more) rest s h = cc

sending_packet :
    (chunk : List ℕ) (ancillary : List Ancillary) (rest : List Event)
    → is_sending (packet chunk ancillary ∷ rest) ≡ true
    → (no_bytes chunk ≡ false) × (is_sending rest ≡ true)
sending_packet chunk [] rest s = ground arith
sending_packet chunk (rights fresh ∷ []) rest s = ground arith
sending_packet chunk (rights fresh ∷ first ∷ more) rest s = cc
sending_packet chunk (other ∷ more) rest s = cc

some-injective : {A : Type 0} {x y : A} → ◌≡◌ {A = Option A} (some x) (some y) → x ≡ y
some-injective e = cc

length-line_of :
    (xs ys line : List ℕ)
    → line_of xs ≡ none
    → line_of (xs ++ ys) ≡ some line
    → length xs ≤ length line
length-line_of xs ys line h k = elim (Option-cases (line_of ys)) [
  | inl e ↦ let never = line_of-never xs ys h e in cc
  | inr e ↦
      let here = line_of-later xs ys e.0 h e.1 in
      subst (λ l. length xs ≤ length l) (some-injective (sym here ∙ k))
        (omega (arith, length-append xs e.0))
]

Delivers-finish :
    (m : ℕ) (line handles : List ℕ) (rest : List Event)
    → no_bytes line ≡ false
    → length line < m
    → Delivers line (finish m line handles rest)
unfolding finish
Delivers-finish m line handles rest e h = Delivers-if line (no_bytes line) _ _ e (
    Delivers-if line (ltb m (length line)) _ _ (ge→ltb m (length line) (omega arith))
      (record { handles = handles; at = refl }))

Delivers-gathered :
    (line : List ℕ) (g : Gathered) (all : List ℕ) (rest : List Event) (k : List ℕ → Reading)
    → g ≡ gathered all
    → Delivers line (k all)
    → Delivers line
        (elim g [ refused error handles ↦ stop error handles rest | gathered handles ↦ k handles ])
Delivers-gathered line g all rest k e d =
    subst
      (λ g.
        Delivers line (elim g [
          | refused error handles ↦ stop error handles rest
          | gathered handles ↦ k handles
        ]))
      (sym e) d

Delivers-line :
    (line : List ℕ) (o : Option (List ℕ)) (k : List ℕ → Reading) (r : Reading)
    → ((found : List ℕ) → o ≡ some found → Delivers line (k found))
    → (o ≡ none → Delivers line r)
    → Delivers line (elim o [ some found ↦ k found | none ↦ r ])
Delivers-line line none k r kk h = h refl
Delivers-line line (some found) k r kk h = kk found refl

Delivers-read_loop :
    (m size : ℕ) (bytes handles : List ℕ) (events : List Event) (line : List ℕ)
    → is_sending events ≡ true
    → length (handles ++ descriptors events) ≤ most_handles
    → size ≡ length bytes
    → line_of bytes ≡ none
    → line_of (bytes ++ stream events) ≡ some line
    → no_bytes line ≡ false
    → length line < m
    → Delivers line (read_loop m size bytes handles events)
unfolding read_loop
Delivers-read_loop m size bytes handles [] line s few z h k e l =
    let never = ap line_of (append_empty bytes) in cc
Delivers-read_loop m size bytes handles (raised ∷ rest) line s few z h k e l = cc
Delivers-read_loop m size bytes handles (packet chunk ancillary ∷ rest) line s few z h k e l =
    let parts = sending_packet chunk ancillary rest s in
    let all = handles ++ descriptors_of ancillary in
    let now = size + length chunk in
    let split = append_assoc bytes chunk (stream rest) in
    let whole = subst (λ u. line_of u ≡ some line) (sym split) k in
    Delivers-gathered line _ all _ _ (gather_few handles chunk ancillary rest s few) (
      Delivers-if line (no_bytes chunk) _ _ parts.0 (
        Delivers-line line (line_of chunk) _ _
          (λ found q.
            let here =
              line_of-later bytes (chunk ++ stream rest) found h
                (line_of-longer chunk (stream rest) found q) in
            subst (λ u. Delivers line (finish m u all rest)) (some-injective (sym k ∙ here))
              (Delivers-finish m line all rest e l))
          (λ q.
            let never = line_of-never bytes chunk h q in
            let more = length-line_of (bytes ++ chunk) (stream rest) line never whole in
            let joined = length-append bytes chunk in
            Delivers-if line (leb m now) _ _ (lt→leb m now (omega (arith, z, more, joined, l))) (
              Delivers-read_loop m now (bytes ++ chunk) all rest line parts.1
                (subst (λ u. length u ≤ most_handles)
                  (sym (append_assoc handles (descriptors_of ancillary) (descriptors rest))) few)
                (omega (arith, z, joined)) never whole e l))))

-- When the peer's stream has a line that is not empty and shorter than the limit, with at most 64
-- descriptors and no empty packet or failing call, the read ends and returns that line.
pub read_frame_with_handles-delivers :
    (max_frame_bytes : ℕ) (events : List Event) (line : List ℕ)
    → is_sending events ≡ true
    → length (descriptors events) ≤ most_handles
    → line_of (stream events) ≡ some line
    → no_bytes line ≡ false
    → length line < max_frame_bytes
    → (handles : List ℕ) × ((read_frame_with_handles max_frame_bytes events).result
        ≡ frame line handles)
unfolding read_frame_with_handles line_of
read_frame_with_handles-delivers max_frame_bytes events line s few h e l =
    let d = Delivers-read_loop max_frame_bytes 0 [] [] events line s few refl refl h e l in
    (d.handles, d.at)
