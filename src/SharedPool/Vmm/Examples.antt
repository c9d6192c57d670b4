-- ===== src/SharedPool/Vmm/Examples.antt =====
-- A driver that records its calls and cannot map one handle: the segment mapped before is unmapped.
use kapsl_integrations.Prelude.{
  ℕ, ◌+◌, ◌≡◌, refl, Bool, true, false, not, ap, none, some, List, [], ◌∷◌, ◌==◌,
}
use kapsl_integrations.Prelude.Sorting.{sorted}
use kapsl_integrations.Contract.Segments.{Segment}
use kapsl_integrations.SharedPool.Vmm.Restore.{Accounts, Returns, vmm_map_segments_restores}
use kapsl_integrations.SharedPool.Vmm.Cuda.{Library, cuda_vmm_driver}
use kapsl_integrations.SharedPool.Vmm.{
  Driver, VmmImport, map_handle, import_segment, map_all, unwind, vmm_map_segments, vmm_close,
  close_all,
}

data DriverEvent : Type 0 where
  opened released : ℕ → DriverEvent
  mapped unmapped freed : ℕ → ℕ → DriverEvent

-- Descriptor `fd` opens as handle `100 + fd`; handle 108 cannot be mapped.
abbrev tracing : Driver (List DriverEvent)
tracing = record {
  import_fd = λ d fd. (opened fd ∷ d, some (100 + fd));
  map_memory = λ d address length handle device. (mapped address length ∷ d, not (handle == 108));
  unmap = λ d address length. (unmapped address length ∷ d, true);
  release_handle = λ d handle. (released handle ∷ d, true);
  free_address = λ d address length. (freed address length ∷ d, true);
}

abbrev reserved : List DriverEvent → VmmImport (List DriverEvent)
reserved events = record {
  driver = events;
  pointer = 4096;
  virtual_bytes = 160;
  granularity = 16;
  device_id = 0;
  segments = [];
}

abbrev segments : List Segment
segments =
    record { segment_id = "t"; offset_bytes = 32; length_bytes = 16; handle_index = 1 }
    ∷ record { segment_id = "s"; offset_bytes = 0; length_bytes = 32; handle_index = 0 }
    ∷ []

unwound : vmm_map_segments tracing (reserved []) segments (7 ∷ 8 ∷ []) ≡ (
  reserved (
      released 107
      ∷ unmapped 4096 32
      ∷ released 108
      ∷ mapped 4128 16
      ∷ opened 8
      ∷ mapped 4096 32
      ∷ opened 7
      ∷ []),
  false,
)
unfolding vmm_map_segments map_all import_segment map_handle unwind sorted
unwound = refl

-- A driver whose state is the open handles and the mapped ranges, the last first.
abbrev Stacks : Type 0
Stacks = List ℕ × List (ℕ × ℕ)

abbrev tail : {A : Type 0} → List A → List A
tail [] = []
tail (x ∷ xs) = xs

abbrev mapped_unless : Bool → Stacks → Stacks → Stacks × Bool
mapped_unless true d e = (d, false)
mapped_unless false d e = (e, true)

abbrev stacking : Driver Stacks
stacking = record {
  import_fd = λ d fd. (((100 + fd) ∷ d.0, d.1), some (100 + fd));
  map_memory = λ d address length handle device.
      mapped_unless (handle == 108) d (d.0, (address, length) ∷ d.1);
  unmap = λ d address length. ((d.0, tail d.1), true);
  release_handle = λ d handle. ((tail d.0, d.1), true);
  free_address = λ d address length. (d, true);
}

mapped_adds :
    (b : Bool) (d e : Stacks) → (mapped_unless b d e).1 ≡ true → (mapped_unless b d e).0.1 ≡ e.1
mapped_adds true d e h = cc
mapped_adds false d e h = refl

mapped_fails :
    (b : Bool) (d e : Stacks) → (mapped_unless b d e).1 ≡ false → (mapped_unless b d e).0.1 ≡ d.1
mapped_fails true d e h = refl
mapped_fails false d e h = cc

mapped_keeps : (b : Bool) (d e : Stacks) → e.0 ≡ d.0 → (mapped_unless b d e).0.0 ≡ d.0
mapped_keeps true d e h = refl
mapped_keeps false d e h = h

opens_new :
    (d : Stacks) (fd h : ℕ)
    → (stacking.import_fd d fd).1 ≡ some h
    → (stacking.import_fd d fd).0.0 ≡ h ∷ d.0
opens_new d fd h e = cc

never_fails :
    (d : Stacks) (fd : ℕ) → (stacking.import_fd d fd).1 ≡ none → (stacking.import_fd d fd).0.0 ≡ d.0
never_fails d fd e = cc

abbrev stack_accounts : Accounts stacking
stack_accounts = record {
  handles = λ d. d.0;
  ranges = λ d. d.1;
  import_opens = λ d fd h e. opens_new d fd h e;
  import_fails = λ d fd e. never_fails d fd e;
  import_ranges = λ d fd. refl;
  map_adds = λ d at n h g e. mapped_adds (h == 108) d _ e;
  map_fails = λ d at n h g e. mapped_fails (h == 108) d _ e;
  map_handles = λ d at n h g. mapped_keeps (h == 108) d _ refl;
  unmap_removes = λ d at n rest e r. ap tail r;
  unmap_handles = λ d at n. refl;
  release_closes = λ d h rest e r. ap tail r;
  release_ranges = λ d h. refl;
}

stacking-Returns : Returns stacking
stacking-Returns = record { unmaps = λ d at n. refl; releases = λ d h. refl }

abbrev bare : VmmImport Stacks
bare = record {
  driver = (5 ∷ [], (64, 16) ∷ []);
  pointer = 4096;
  virtual_bytes = 160;
  granularity = 16;
  device_id = 0;
  segments = [];
}

mapping_fails : (vmm_map_segments stacking bare segments (7 ∷ 8 ∷ [])).1 ≡ false
unfolding vmm_map_segments map_all import_segment map_handle unwind sorted
mapping_fails = refl

vmm_map_segments_restores_example :
    ((vmm_map_segments stacking bare segments (7 ∷ 8 ∷ [])).0.driver.0 ≡ 5 ∷ [])
    × (((vmm_map_segments stacking bare segments (7 ∷ 8 ∷ [])).0.driver.1 ≡ (64, 16) ∷ [])
        × ((vmm_map_segments stacking bare segments (7 ∷ 8 ∷ [])).0.segments ≡ []))
vmm_map_segments_restores_example =
    vmm_map_segments_restores stack_accounts stacking-Returns bare segments (7 ∷ 8 ∷ [])
      mapping_fails

closes :
    vmm_close tracing (record (reserved []) {
      segments = record { segment_id = "s"; offset = 0; length_bytes = 32; handle = 107 } ∷ [];
    })
    ≡ (
      record (reserved (freed 4096 160 ∷ released 107 ∷ unmapped 4096 32 ∷ [])) { pointer = 0 },
      true,
    )
unfolding vmm_close close_all sorted
closes = refl

-- A library that refuses the access, and counts its calls.
abbrev refusing : Library ℕ
refusing = record {
  mem_import = λ d fd. (d + 1, (0, fd));
  mem_map = λ d at n h. (d + 10, 0);
  mem_set_access = λ d at n g. (d + 100, 1);
  mem_unmap = λ d at n. (d + 1000, 0);
  mem_release = λ d h. (d, 0);
  mem_address_free = λ d at n. (d, 0);
}

access_refused : (cuda_vmm_driver refusing).map_memory 0 4096 16 5 0 ≡ (1110, false)
access_refused = refl
