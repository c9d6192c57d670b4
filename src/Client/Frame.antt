-- ===== src/Client/Frame.antt =====
-- `_read_frame_with_handles` of client.py. What the calls of `recvmsg` give is a list of events, in the
-- order of the calls; a call that raises, for a timeout or a lost peer, is an event too. A packet has at
-- most the bytes that the call asks for.
pub mod Handles
pub mod Content
use kapsl_integrations.Prelude.{
  ℕ, ◌+◌, Bool, true, false, Option, none, some, List, [], ◌∷◌, ◌++◌, length, ltb, leb, ◌==◌,
  if◌then◌else◌,
}

-- `SCM_RIGHTS` carries descriptors, which the kernel has opened in this process.
pub data Ancillary : Type 0 where
  rights : List ℕ → Ancillary
  other : Ancillary

pub data Event : Type 0 where
  packet : List ℕ → List Ancillary → Event
  raised : Event

pub data FrameError : Type 0 where
  transport unsupported_ancillary too_many_handles peer_closed frame_too_large empty_frame :
      FrameError

-- `waiting`: the events are used up and the loop goes on, with the handles so far.
pub data ReadResult : Type 0 where
  frame : List ℕ → List ℕ → ReadResult
  failed : FrameError → ReadResult
  waiting : List ℕ → ReadResult

-- With the descriptors that were passed to `os.close`, and the events that were not read.
pub record Reading : Type 0 where
  pub result : ReadResult
  pub closed : List ℕ
  pub rest : List Event

abbrev pub most_handles : ℕ
most_handles = 64

abbrev pub newline : ℕ
newline = 10

-- `chunk[:newline]`, if the chunk has one.
unfoldable pub line_of : List ℕ → Option (List ℕ)
line_of [] = none
line_of (b ∷ bs) =
    if b == newline
    then some []
    else elim (line_of bs) [ none ↦ none | some line ↦ some (b ∷ line) ]

-- The handles after the ancillary data of one message, or the error with the handles that it closes.
pub data Gathered : Type 0 where
  gathered : List ℕ → Gathered
  refused : FrameError → List ℕ → Gathered

unfoldable pub gather : List ℕ → List Ancillary → Gathered
gather handles [] = gathered handles
gather handles (other ∷ more) = refused unsupported_ancillary handles
gather handles (rights descriptors ∷ more) =
    let all = handles ++ descriptors in
    let later = gather all more in
    if ltb most_handles (length all) then refused too_many_handles all else later

abbrev pub no_bytes : List ℕ → Bool
no_bytes [] = true
no_bytes (b ∷ bs) = false

abbrev pub stop : FrameError → List ℕ → List Event → Reading
stop error handles rest = record { result = failed error; closed = handles; rest = rest }

-- After the loop, which `break` leaves.
unfoldable pub finish : ℕ → List ℕ → List ℕ → List Event → Reading
finish max_frame_bytes bytes handles rest =
    if no_bytes bytes
    then stop empty_frame handles rest
    else if ltb max_frame_bytes (length bytes)
    then stop frame_too_large handles rest
    else record { result = frame bytes handles; closed = []; rest = rest }

-- `bytes` are the chunks so far, joined, and `size` is their length.
unfoldable pub read_loop : ℕ → ℕ → List ℕ → List ℕ → List Event → Reading
unfolding gather finish
read_loop max_frame_bytes size bytes handles [] = record {
  result = waiting handles;
  closed = [];
  rest = [];
}
read_loop max_frame_bytes size bytes handles (raised ∷ rest) = stop transport [] rest
read_loop max_frame_bytes size bytes handles (packet chunk ancillary ∷ rest) =
    elim (gather handles ancillary) [
      | refused error all ↦ stop error all rest
      | gathered all ↦ if no_bytes chunk then stop peer_closed all rest else elim (line_of chunk) [
        | some line ↦ finish max_frame_bytes (bytes ++ line) all rest
        | none ↦
            let later = read_loop max_frame_bytes (size + length chunk) (bytes ++ chunk) all rest in
            if leb max_frame_bytes (size + length chunk)
            then stop frame_too_large all rest
            else later
      ]
    ]

unfoldable pub read_frame_with_handles : ℕ → List Event → Reading
read_frame_with_handles max_frame_bytes events = read_loop max_frame_bytes 0 [] [] events
