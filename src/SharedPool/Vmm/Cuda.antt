-- ===== src/SharedPool/Vmm/Cuda.antt =====
-- `_CudaVmmDriver` of shared_pool.py over the CUDA driver library, of which each function returns the next
-- state of the device and its result, 0 for success.
use kapsl_integrations.Prelude.{
  ℕ, Bool, true, false, Option, none, some, List, ◌∷◌, ◌==◌, ◌≡◌, refl, ap, ◌∙◌,
}
use kapsl_integrations.SharedPool.Vmm.{Driver}
use kapsl_integrations.SharedPool.Vmm.Restore.{Accounts}

-- The functions of libcuda; the import returns the handle too.
pub record Library (D : Type 0) : Type 0 where
  pub mem_import : D → ℕ → D × (ℕ × ℕ)
  pub mem_map : D → ℕ → ℕ → ℕ → D × ℕ
  pub mem_set_access : D → ℕ → ℕ → ℕ → D × ℕ
  pub mem_unmap : D → ℕ → ℕ → D × ℕ
  pub mem_release : D → ℕ → D × ℕ
  pub mem_address_free : D → ℕ → ℕ → D × ℕ

abbrev pub is_success : ℕ → Bool
is_success result = result == 0

-- `_check` of the import: the handle, unless it raises.
abbrev pub imported_handle : Bool → ℕ → Option ℕ
imported_handle true handle = some handle
imported_handle false handle = none

-- `map` by the results of cuMemMap and cuMemSetAccess, with the states after these and after the unmapping
-- that follows a refused access, whose own result is not looked at.
abbrev pub mapped_by : {D : Type 0} → Bool → Bool → D → D → D → D × Bool
mapped_by false access after_map after_access after_unmap = (after_map, false)
mapped_by true false after_map after_access after_unmap = (after_unmap, false)
mapped_by true true after_map after_access after_unmap = (after_access, true)

abbrev pub cuda_vmm_driver : {D : Type 0} → Library D → Driver D
cuda_vmm_driver cuda = record {
  import_fd = λ d descriptor.
      let r = cuda.mem_import d descriptor in (r.0, imported_handle (is_success r.1.0) r.1.1);
  map_memory = λ d address length handle device_id.
      let m = cuda.mem_map d address length handle in
      let a = cuda.mem_set_access m.0 address length device_id in
      let u = cuda.mem_unmap a.0 address length in
      mapped_by (is_success m.1) (is_success a.1) m.0 a.0 u.0;
  unmap = λ d address length. let r = cuda.mem_unmap d address length in (r.0, is_success r.1);
  release_handle = λ d handle. let r = cuda.mem_release d handle in (r.0, is_success r.1);
  free_address =
      λ d address length. let r = cuda.mem_address_free d address length in (r.0, is_success r.1);
}

-- The documented effect of the library on the open handles and the mapped ranges, the last first: a
-- function that fails has none. `unmaps`: the range that was mapped last can be unmapped.
pub record Documented {D : Type 0} (cuda : Library D) : Type 0 where
  pub handles : D → List ℕ
  pub ranges : D → List (ℕ × ℕ)
  pub import_opens :
      (d : D) (fd : ℕ)
      → is_success (cuda.mem_import d fd).1.0 ≡ true
      → handles (cuda.mem_import d fd).0 ≡ (cuda.mem_import d fd).1.1 ∷ handles d
  pub import_fails :
      (d : D) (fd : ℕ)
      → is_success (cuda.mem_import d fd).1.0 ≡ false
      → handles (cuda.mem_import d fd).0 ≡ handles d
  pub import_ranges : (d : D) (fd : ℕ) → ranges (cuda.mem_import d fd).0 ≡ ranges d
  pub map_adds :
      (d : D) (at n h : ℕ)
      → is_success (cuda.mem_map d at n h).1 ≡ true
      → ranges (cuda.mem_map d at n h).0 ≡ (at, n) ∷ ranges d
  pub map_fails :
      (d : D) (at n h : ℕ)
      → is_success (cuda.mem_map d at n h).1 ≡ false
      → ranges (cuda.mem_map d at n h).0 ≡ ranges d
  pub map_handles : (d : D) (at n h : ℕ) → handles (cuda.mem_map d at n h).0 ≡ handles d
  pub access_ranges : (d : D) (at n g : ℕ) → ranges (cuda.mem_set_access d at n g).0 ≡ ranges d
  pub access_handles : (d : D) (at n g : ℕ) → handles (cuda.mem_set_access d at n g).0 ≡ handles d
  pub unmap_removes :
      (d : D) (at n : ℕ) (rest : List (ℕ × ℕ))
      → is_success (cuda.mem_unmap d at n).1 ≡ true
      → ranges d ≡ (at, n) ∷ rest
      → ranges (cuda.mem_unmap d at n).0 ≡ rest
  pub unmaps :
      (d : D) (at n : ℕ) (rest : List (ℕ × ℕ))
      → ranges d ≡ (at, n) ∷ rest
      → is_success (cuda.mem_unmap d at n).1 ≡ true
  pub unmap_handles : (d : D) (at n : ℕ) → handles (cuda.mem_unmap d at n).0 ≡ handles d
  pub release_closes :
      (d : D) (h : ℕ) (rest : List ℕ)
      → is_success (cuda.mem_release d h).1 ≡ true
      → handles d ≡ h ∷ rest
      → handles (cuda.mem_release d h).0 ≡ rest
  pub release_ranges : (d : D) (h : ℕ) → ranges (cuda.mem_release d h).0 ≡ ranges d

opened_by :
    (b : Bool) (handle h : ℕ) → imported_handle b handle ≡ some h → (b ≡ true) × (handle ≡ h)
opened_by true handle h e = (refl, cc)
opened_by false handle h e = cc

not_opened : (b : Bool) (handle : ℕ) → imported_handle b handle ≡ none → b ≡ false
not_opened true handle e = cc
not_opened false handle e = refl

module _ {D : Type 0} (P : D → Type 0) where
  -- What all three states have in common, the result has.
  mapped_by-all : (m a : Bool) (d e f : D) → P d → P e → P f → P (mapped_by m a d e f).0
  mapped_by-all false a d e f p q r = p
  mapped_by-all true false d e f p q r = r
  mapped_by-all true true d e f p q r = q

  mapped_by-true :
      (m a : Bool) (d e f : D)
      → (m ≡ true → P e)
      → (mapped_by m a d e f).1 ≡ true
      → P (mapped_by m a d e f).0
  mapped_by-true false a d e f q h = cc
  mapped_by-true true false d e f q h = cc
  mapped_by-true true true d e f q h = q refl

  mapped_by-false :
      (m a : Bool) (d e f : D)
      → (m ≡ false → P d)
      → (m ≡ true → P f)
      → (mapped_by m a d e f).1 ≡ false
      → P (mapped_by m a d e f).0
  mapped_by-false false a d e f p r h = p refl
  mapped_by-false true false d e f p r h = r refl
  mapped_by-false true true d e f p r h = cc

-- The driver keeps the accounts that its users rely on: `map` undoes the mapping when the access is refused.
pub cuda_vmm_driver-Accounts :
    {D : Type 0} (cuda : Library D) → Documented cuda → Accounts (cuda_vmm_driver cuda)
cuda_vmm_driver-Accounts {D} cuda laws = record {
  handles = laws.handles;
  ranges = laws.ranges;
  import_opens = λ d fd h e.
      let o = opened_by _ _ _ e in laws.import_opens d fd o.0 ∙ ap (λ k. k ∷ laws.handles d) o.1;
  import_fails = λ d fd e. laws.import_fails d fd (not_opened _ _ e);
  import_ranges = laws.import_ranges;
  map_adds = λ d at n h g e.
      mapped_by-true (λ s. laws.ranges s ≡ (at, n) ∷ laws.ranges d) _ _ _ _ _
        (λ m. added d at n h g m) e;
  map_fails = λ d at n h g e.
      mapped_by-false (λ s. laws.ranges s ≡ laws.ranges d) _ _ _ _ _ (laws.map_fails d at n h)
        (λ m.
          laws.unmap_removes (accessed d at n h g) at n (laws.ranges d)
            (laws.unmaps (accessed d at n h g) at n (laws.ranges d) (added d at n h g m))
            (added d at n h g m))
        e;
  map_handles = λ d at n h g.
      let access =
        laws.access_handles (cuda.mem_map d at n h).0 at n g ∙ laws.map_handles d at n h in
      mapped_by-all (λ s. laws.handles s ≡ laws.handles d) _ _ _ _ _ (laws.map_handles d at n h)
        access (laws.unmap_handles (accessed d at n h g) at n ∙ access);
  unmap_removes = laws.unmap_removes;
  unmap_handles = laws.unmap_handles;
  release_closes = laws.release_closes;
  release_ranges = laws.release_ranges;
}
  where
    accessed : D → ℕ → ℕ → ℕ → ℕ → D
    accessed d at n h g = (cuda.mem_set_access (cuda.mem_map d at n h).0 at n g).0

    added :
        (d : D) (at n h g : ℕ)
        → is_success (cuda.mem_map d at n h).1 ≡ true
        → laws.ranges (accessed d at n h g) ≡ (at, n) ∷ laws.ranges d
    added d at n h g m =
        laws.access_ranges (cuda.mem_map d at n h).0 at n g ∙ laws.map_adds d at n h m
