-- ===== src/SharedPool/Vmm.antt =====
-- `_ManagedVmmImport` of shared_pool.py: the physical segments of a reserved address range. The driver is
-- a parameter, as in the code, each call of which returns the next state and its result, `false` or `none`
-- where it raises; Cuda has the driver that the code passes.
pub mod Restore
pub mod Cuda
pub mod Examples
use kapsl_integrations.Prelude.{
  ℕ, zero, suc, ◌+◌, ◌%◌, ◌≡◌, refl, String, Bool, true, false, not, ◌&&◌, ◌||◌, Option, none, some,
  List, [], ◌∷◌, map, any, length, ltb, leb, ◌==◌, str_eq, if◌then◌else◌,
}
use kapsl_integrations.Prelude.Sorting.{sorted, insert}
use kapsl_integrations.Contract.Segments.{Segment}
use kapsl_integrations.SharedPool.Worker.{Import}

pub record Driver (D : Type 0) : Type 0 where
  pub import_fd : D → ℕ → D × Option ℕ
  pub map_memory : D → ℕ → ℕ → ℕ → ℕ → D × Bool
  pub unmap : D → ℕ → ℕ → D × Bool
  pub release_handle : D → ℕ → D × Bool
  pub free_address : D → ℕ → ℕ → D × Bool

pub record Imported : Type 0 where
  pub segment_id : String
  pub offset : ℕ
  pub length_bytes : ℕ
  pub handle : ℕ

pub record VmmImport (D : Type 0) : Type 0 where
  pub driver : D
  pub pointer : ℕ
  pub virtual_bytes : ℕ
  pub granularity : ℕ
  pub device_id : ℕ
  pub segments : List Imported

abbrev pub find_segment : List Imported → String → Option Imported
find_segment [] name = none
find_segment (i ∷ is) name = if str_eq i.segment_id name then some i else find_segment is name

-- `del self.segments[segment_id]`
abbrev pub without : List Imported → String → List Imported
without [] name = []
without (i ∷ is) name = if str_eq i.segment_id name then is else i ∷ without is name

-- `self.segments[segment_id] = ...`: an old entry keeps its place.
abbrev pub put : List Imported → Imported → List Imported
put [] new = new ∷ []
put (i ∷ is) new = if str_eq i.segment_id new.segment_id then new ∷ is else i ∷ put is new

-- The imports are held with the last first.
abbrev pub put_all : List Imported → List Imported → List Imported
put_all table [] = table
put_all table (i ∷ is) = put (put_all table is) i

abbrev pub nth : List ℕ → ℕ → Option ℕ
nth [] n = none
nth (x ∷ xs) zero = some x
nth (x ∷ xs) (suc n) = nth xs n

abbrev pub by_offset : Segment → Segment → Bool
by_offset s t = leb s.offset_bytes t.offset_bytes

-- `sorted(..., reverse=True)` keeps the order of equal keys.
abbrev pub from_last : Imported → Imported → Bool
from_last i j = leb j.offset i.offset

module _ {D : Type 0} where
  abbrev pub is_invalid : VmmImport D → List ℕ → Segment → Bool
  is_invalid v handles s =
      str_eq s.segment_id ""
      || any (λ i. str_eq i.segment_id s.segment_id) v.segments
      || s.length_bytes == 0
      || ltb 0 (s.offset_bytes % v.granularity)
      || ltb 0 (s.length_bytes % v.granularity)
      || ltb v.virtual_bytes (s.offset_bytes + s.length_bytes)
      || leb (length handles) s.handle_index

pub record Progress (D : Type 0) : Type 0 where
  pub driver : D
  pub imported : List Imported
  pub completed : Bool

module _ {D : Type 0} (cuda : Driver D) where
  abbrev pub failed : D → List Imported → Progress D
  failed d imported = record { driver = d; imported = imported; completed = false }

  -- A handle is mapped, or released again.
  unfoldable pub map_handle : VmmImport D → D → Segment → Option ℕ → D × Option ℕ
  map_handle v d s none = (d, none)
  map_handle v d s (some handle) =
      let mapped =
        cuda.map_memory d (v.pointer + s.offset_bytes) s.length_bytes handle v.device_id in
      if mapped.1 then (mapped.0, some handle) else ((cuda.release_handle mapped.0 handle).0, none)

  unfoldable pub import_segment : VmmImport D → D → Segment → Option ℕ → D × Option ℕ
  unfolding map_handle
  import_segment v d s none = (d, none)
  import_segment v d s (some descriptor) =
      let opened = cuda.import_fd d descriptor in map_handle v opened.0 s opened.1

  unfoldable pub map_all : VmmImport D → List ℕ → D → List Imported → List Segment → Progress D
  unfolding import_segment
  map_all v handles d imported [] = record { driver = d; imported = imported; completed = true }
  map_all v handles d imported (s ∷ rest) =
      let step = import_segment v d s (nth handles s.handle_index) in
      if is_invalid v handles s then failed d imported else elim step.1 [
        | none ↦ failed step.0 imported
        | some handle ↦
            map_all v handles step.0
              (record {
                segment_id = s.segment_id;
                offset = s.offset_bytes;
                length_bytes = s.length_bytes;
                handle = handle;
              }
                ∷ imported)
              rest
      ]

  -- `unmap` with `release_handle` in `finally`, over the imports from the last to the first; the first
  -- call that raises ends it.
  unfoldable pub unwind : VmmImport D → D → List Imported → D
  unwind v d [] = d
  unwind v d (i ∷ is) =
      let unmapped = cuda.unmap d (v.pointer + i.offset) i.length_bytes in
      let released = cuda.release_handle unmapped.0 i.handle in
      let rest = unwind v released.0 is in if unmapped.1 && released.1 then rest else released.0

  unfoldable pub vmm_map_segments : VmmImport D → List Segment → List ℕ → VmmImport D × Bool
  unfolding map_all unwind sorted
  vmm_map_segments v segments handles =
      let progress = map_all v handles v.driver [] (sorted by_offset segments) in
      if progress.completed
      then (
        record v { driver = progress.driver; segments = put_all v.segments progress.imported },
        true,
      )
      else (record v { driver = unwind v progress.driver progress.imported }, false)

  -- The imported segments that a message names, if each agrees with what was imported.
  unfoldable pub resolve : List Imported → List Segment → Option (List Imported)
  resolve table [] = some []
  resolve table (s ∷ rest) =
      let later = resolve table rest in
      elim (find_segment table s.segment_id) [
        | none ↦ none
        | some i ↦
            if i.offset == s.offset_bytes && i.length_bytes == s.length_bytes
            then elim (later) [ none ↦ none | some is ↦ some (i ∷ is) ]
            else none
      ]

  -- Each call that raises leaves what the calls before it have done. A segment that the message names
  -- twice is gone from the table when `del` comes to it again.
  unfoldable pub unmap_all : VmmImport D → List Imported → VmmImport D × Bool
  unmap_all v [] = (v, true)
  unmap_all v (i ∷ is) =
      let unmapped = cuda.unmap v.driver (v.pointer + i.offset) i.length_bytes in
      let released = cuda.release_handle unmapped.0 i.handle in
      let rest =
        unmap_all (record v { driver = released.0; segments = without v.segments i.segment_id })
          is in
      if not unmapped.1
      then (record v { driver = unmapped.0 }, false)
      else if not released.1 || not (any (λ j. str_eq j.segment_id i.segment_id) v.segments)
      then (record v { driver = released.0 }, false)
      else rest

  unfoldable pub vmm_unmap_segments : VmmImport D → List Segment → VmmImport D × Bool
  unfolding resolve unmap_all sorted
  vmm_unmap_segments v segments = elim (resolve v.segments segments) [
    | none ↦ (v, false)
    | some resolved ↦ unmap_all v (sorted from_last resolved)
  ]

-- `close`: every call is made, whichever of them raise; the result is whether none did.
module _ {D : Type 0} (cuda : Driver D) where
  unfoldable pub close_all : D → ℕ → List Imported → D × Bool
  close_all d pointer [] = (d, true)
  close_all d pointer (i ∷ is) =
      let unmapped = cuda.unmap d (pointer + i.offset) i.length_bytes in
      let released = cuda.release_handle unmapped.0 i.handle in
      let rest = close_all released.0 pointer is in (rest.0, unmapped.1 && released.1 && rest.1)

  unfoldable pub vmm_close : VmmImport D → VmmImport D × Bool
  unfolding close_all sorted
  vmm_close v =
      let closed = close_all v.driver v.pointer (sorted from_last v.segments) in
      let freed = cuda.free_address closed.0 v.pointer v.virtual_bytes in
      if v.pointer == 0
      then (v, true)
      else (record v { driver = freed.0; pointer = 0; segments = [] }, closed.1 && freed.1)

-- The import as the buffer of a worker uses it.
abbrev pub vmm_import :
    {D : Type 0} → Driver D → (D → D × Bool) → (D → List Segment → D × Bool) → Import (VmmImport D)
vmm_import cuda synchronize verify = record {
  synchronize = λ v. let step = synchronize v.driver in (record v { driver = step.0 }, step.1);
  map_segments = vmm_map_segments cuda;
  unmap_segments = vmm_unmap_segments cuda;
  verify_zero_segments =
      λ v segments. let step = verify v.driver segments in (record v { driver = step.0 }, step.1);
}
