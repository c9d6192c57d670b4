-- ===== src/SharedPool/Vmm/Restore.antt =====
-- A `map_segments` of `_ManagedVmmImport` (shared_pool.py) that fails gives back what it had taken.
use kapsl_integrations.Prelude.{
  ℕ, ◌+◌, Bool, true, false, ◌&&◌, Option, none, some, List, [], ◌∷◌, if◌then◌else◌, ◌≡◌, refl, ap,
  ◌∙◌, arith, Bool-cases, inl, inr,
}
use kapsl_integrations.Prelude.Sorting.{sorted}
use kapsl_integrations.Contract.Segments.{Segment}
use kapsl_integrations.SharedPool.Vmm.{
  Driver, Imported, VmmImport, Progress, nth, by_offset, is_invalid, failed, map_handle,
  import_segment, map_all, unwind, put_all, vmm_map_segments,
}

-- The documented effect of the driver's calls on the open handles and the mapped ranges, the last first:
-- a call that raises has none.
pub record Accounts {D : Type 0} (cuda : Driver D) : Type 0 where
  pub handles : D → List ℕ
  pub ranges : D → List (ℕ × ℕ)
  pub import_opens :
      (d : D) (fd h : ℕ)
      → (cuda.import_fd d fd).1 ≡ some h
      → handles (cuda.import_fd d fd).0 ≡ h ∷ handles d
  pub import_fails :
      (d : D) (fd : ℕ)
      → (cuda.import_fd d fd).1 ≡ none
      → handles (cuda.import_fd d fd).0 ≡ handles d
  pub import_ranges : (d : D) (fd : ℕ) → ranges (cuda.import_fd d fd).0 ≡ ranges d
  pub map_adds :
      (d : D) (at n h g : ℕ)
      → (cuda.map_memory d at n h g).1 ≡ true
      → ranges (cuda.map_memory d at n h g).0 ≡ (at, n) ∷ ranges d
  pub map_fails :
      (d : D) (at n h g : ℕ)
      → (cuda.map_memory d at n h g).1 ≡ false
      → ranges (cuda.map_memory d at n h g).0 ≡ ranges d
  pub map_handles : (d : D) (at n h g : ℕ) → handles (cuda.map_memory d at n h g).0 ≡ handles d
  pub unmap_removes :
      (d : D) (at n : ℕ) (rest : List (ℕ × ℕ))
      → (cuda.unmap d at n).1 ≡ true
      → ranges d ≡ (at, n) ∷ rest
      → ranges (cuda.unmap d at n).0 ≡ rest
  pub unmap_handles : (d : D) (at n : ℕ) → handles (cuda.unmap d at n).0 ≡ handles d
  pub release_closes :
      (d : D) (h : ℕ) (rest : List ℕ)
      → (cuda.release_handle d h).1 ≡ true
      → handles d ≡ h ∷ rest
      → handles (cuda.release_handle d h).0 ≡ rest
  pub release_ranges : (d : D) (h : ℕ) → ranges (cuda.release_handle d h).0 ≡ ranges d

-- Unmapping and releasing do not raise.
pub record Returns {D : Type 0} (cuda : Driver D) : Type 0 where
  pub unmaps : (d : D) (at n : ℕ) → (cuda.unmap d at n).1 ≡ true
  pub releases : (d : D) (h : ℕ) → (cuda.release_handle d h).1 ≡ true

abbrev opened : List Imported → List ℕ → List ℕ
opened [] base = base
opened (i ∷ is) base = i.handle ∷ opened is base

abbrev regions : ℕ → List Imported → List (ℕ × ℕ) → List (ℕ × ℕ)
regions pointer [] base = base
regions pointer (i ∷ is) base = (pointer + i.offset, i.length_bytes) ∷ regions pointer is base

module _ {D : Type 0} {cuda : Driver D} (accounts : Accounts cuda) (returns : Returns cuda)
    (v : VmmImport D) where
  -- The driver holds what it held at the start and the imports.
  record Holds (base : D) (imported : List Imported) (d : D) : Type 0 where
    pub handles : accounts.handles d ≡ opened imported (accounts.handles base)
    pub ranges : accounts.ranges d ≡ regions v.pointer imported (accounts.ranges base)

  abbrev entry_of : Segment → ℕ → Imported
  entry_of s handle = record {
    segment_id = s.segment_id;
    offset = s.offset_bytes;
    length_bytes = s.length_bytes;
    handle = handle;
  }

  -- After an import of a segment: its handle and range are held, or nothing more is.
  Imports : D → List Imported → Segment → D × Option ℕ → Type 0
  Imports base imported s (d, none) = Holds base imported d
  Imports base imported s (d, some handle) = Holds base (entry_of s handle ∷ imported) d

  Imports-map_handle :
      (base : D) (imported : List Imported) (s : Segment) (d : D) (opening : Option ℕ)
      → ((h : ℕ)
          → opening ≡ some h
          → accounts.handles d ≡ h ∷ opened imported (accounts.handles base))
      → (opening ≡ none → accounts.handles d ≡ opened imported (accounts.handles base))
      → accounts.ranges d ≡ regions v.pointer imported (accounts.ranges base)
      → Imports base imported s (map_handle cuda v d s opening)
  unfolding map_handle Imports
  Imports-map_handle base imported s d none k n r = record { handles = n refl; ranges = r }
  Imports-map_handle base imported s d (some h) k n r =
      let at = v.pointer + s.offset_bytes in
      let mapped = cuda.map_memory d at s.length_bytes h v.device_id in
      let same = accounts.map_handles d at s.length_bytes h v.device_id in
      elim (Bool-cases mapped.1) [
        | inl e ↦ rw e (record {
          handles = same ∙ k h refl;
          ranges =
              accounts.map_adds d at s.length_bytes h v.device_id e
              ∙ ap (λ l. (at, s.length_bytes) ∷ l) r;
        })
        | inr e ↦ rw e (record {
          handles =
              accounts.release_closes mapped.0 h _ (returns.releases mapped.0 h) (same ∙ k h refl);
          ranges =
              accounts.release_ranges mapped.0 h
              ∙ (accounts.map_fails d at s.length_bytes h v.device_id e ∙ r);
        })
      ]

  Imports-import_segment :
      (base : D) (imported : List Imported) (s : Segment) (d : D) (descriptor : Option ℕ)
      → Holds base imported d
      → Imports base imported s (import_segment cuda v d s descriptor)
  unfolding import_segment Imports
  Imports-import_segment base imported s d none h = h
  Imports-import_segment base imported s d (some fd) h =
      Imports-map_handle base imported s (cuda.import_fd d fd).0 (cuda.import_fd d fd).1
        (λ handle e. accounts.import_opens d fd handle e ∙ ap (λ l. handle ∷ l) h.handles)
        (λ e. accounts.import_fails d fd e ∙ h.handles) (accounts.import_ranges d fd ∙ h.ranges)

  Held : D → Progress D → Type 0
  Held base p = Holds base p.imported p.driver

  Held-if :
      (base : D) (b : Bool) (p q : Progress D)
      → Held base p
      → Held base q
      → Held base (if b then p else q)
  Held-if base true p q h k = h
  Held-if base false p q h k = k

  Held-step :
      (base : D) (imported : List Imported) (s : Segment) (step : D × Option ℕ)
      (go_on : ℕ → Progress D)
      → Imports base imported s step
      → ((handle : ℕ) → Holds base (entry_of s handle ∷ imported) step.0 → Held base (go_on handle))
      → Held base (elim step.1 [ none ↦ failed cuda step.0 imported | some handle ↦ go_on handle ])
  unfolding Held Imports
  Held-step base imported s (d, none) go_on h k = h
  Held-step base imported s (d, some handle) go_on h k = k handle h

  Held-map_all :
      (base : D) (handles : List ℕ) (d : D) (imported : List Imported) (segments : List Segment)
      → Holds base imported d
      → Held base (map_all cuda v handles d imported segments)
  unfolding map_all Held
  Held-map_all base handles d imported [] h = h
  Held-map_all base handles d imported (s ∷ rest) h =
      let step = import_segment cuda v d s (nth handles s.handle_index) in
      Held-if base (is_invalid v handles s) _ _ h (
        Held-step base imported s step _
          (Imports-import_segment base imported s d (nth handles s.handle_index) h)
          (λ handle k. Held-map_all base handles step.0 (entry_of s handle ∷ imported) rest k))

  Holds-if :
      (base : D) (imported : List Imported) (b : Bool) (d d' : D)
      → b ≡ true
      → Holds base imported d
      → Holds base imported (if b then d else d')
  Holds-if base imported true d d' e h = h
  Holds-if base imported false d d' e h = cc

  Holds-unwind :
      (base : D) (imported : List Imported) (d : D)
      → Holds base imported d
      → Holds base [] (unwind cuda v d imported)
  unfolding unwind
  Holds-unwind base [] d h = h
  Holds-unwind base (i ∷ is) d h =
      let at = v.pointer + i.offset in
      let unmapped = cuda.unmap d at i.length_bytes in
      let released = cuda.release_handle unmapped.0 i.handle in
      let unmaps = returns.unmaps d at i.length_bytes in
      let releases = returns.releases unmapped.0 i.handle in
      Holds-if base [] (unmapped.1 && released.1) _ _ (both unmaps releases) (
        Holds-unwind base is released.0 (record {
          handles =
              accounts.release_closes unmapped.0 i.handle _ releases
                (accounts.unmap_handles d at i.length_bytes ∙ h.handles);
          ranges =
              accounts.release_ranges unmapped.0 i.handle
              ∙ accounts.unmap_removes d at i.length_bytes _ unmaps h.ranges;
        }))
    where
      both : {a b : Bool} → a ≡ true → b ≡ true → (a && b) ≡ true
      both {a = a} {b = b} e f = ground arith

  -- The result of `vmm_map_segments` by whether the loop was completed.
  finished : List Segment → List ℕ → Bool → VmmImport D × Bool
  finished segments handles b =
      let p = map_all cuda v handles v.driver [] (sorted by_offset segments) in
      if b
      then (record v { driver = p.driver; segments = put_all v.segments p.imported }, true)
      else (record v { driver = unwind cuda v p.driver p.imported }, false)

  -- When a mapping of segments fails, however far it came, and unmapping and releasing do not raise, the
  -- open handles, the mapped ranges and the table of segments are afterwards as before.
  pub vmm_map_segments_restores :
      (segments : List Segment) (handles : List ℕ)
      → (vmm_map_segments cuda v segments handles).1 ≡ false
      → (accounts.handles (vmm_map_segments cuda v segments handles).0.driver
          ≡ accounts.handles v.driver)
        × ((accounts.ranges (vmm_map_segments cuda v segments handles).0.driver
              ≡ accounts.ranges v.driver)
            × ((vmm_map_segments cuda v segments handles).0.segments ≡ v.segments))
  unfolding vmm_map_segments Held finished
  vmm_map_segments_restores segments handles h =
      let p = map_all cuda v handles v.driver [] (sorted by_offset segments) in
      let held =
        Held-map_all v.driver handles v.driver [] (sorted by_offset segments)
          (record { handles = refl; ranges = refl }) in
      go p.completed (Holds-unwind v.driver p.imported p.driver held) h
    where
      go :
          (b : Bool)
          → Holds v.driver [] (
              unwind cuda v
                (map_all cuda v handles v.driver [] (sorted by_offset segments)).driver
                (map_all cuda v handles v.driver [] (sorted by_offset segments)).imported)
          → (finished segments handles b).1 ≡ false
          → (accounts.handles (finished segments handles b).0.driver ≡ accounts.handles v.driver)
            × ((accounts.ranges (finished segments handles b).0.driver ≡ accounts.ranges v.driver)
                × ((finished segments handles b).0.segments ≡ v.segments))
      go true k e = cc
      go false k e = (k.handles, (k.ranges, refl))
