-- ===== src/Lib.antt =====
-- Verification of the vLLM connector of kapsl-integrations, integrations/vllm/src/kapsl_vllm_connector,
-- and of the runtime closure of its ORT packs, integrations/ort/packaging.
--
-- The program. The connector plugs a vLLM process into the Kapsl runtime. Its planner (planning.py)
-- turns the resolved cache geometry of a model and a sizing policy into an exact plan of cache blocks,
-- for every tensor-parallel rank. Its contract (contract.py) writes and checks the messages of the
-- runtime's control channel: registrations and their receipts, reservations and leases, attachments,
-- and the operations that resize a pool. A checked resize operation goes to the workers, whose hook
-- maps or unmaps the physical segments, and to the scheduler, whose elastic block pool gives the blocks
-- to vLLM or takes them back (shared_pool.py).
--
-- The files.
--   Prelude        what all share: code that raises (Result, Ensures), sorting, sets, decoded JSON
--   Planning       planning.py
--     Checked      _uint, checked_add, checked_mul, ceil_div, round_up, round_down and their laws
--     Types        the frozen dataclasses; Validity: what their checks leave true
--     Geometry     the __post_init__ methods of the geometry classes, shared_pool_block_stride; World: what
--                  they establish, with Alike and Numbered
--     Policy       SizingPolicy.__post_init__ on arbitrary Python values
--     Sizing       size_rank, one function for each stage, in the order of the code
--     Plan         build_plan, PlanningResult.__post_init__ and the two totals
--   Contract       contract.py
--     Checks       _mapping, _nonempty, _positive_int, _nonnegative_int
--     Segments     the loop over VMM segments that two validators share
--     Resize       validate_resize_operation, _validate_resize_actor, _validate_resize_stage
--     Elastic      _validate_elastic_pool
--     Shard, Attachment   validate_shared_pool_attachment and its parts
--     Requests     the reserve, detach, resize poll and acknowledgement requests; validate_lease
--     Version, Receipt    accepts_version, validate_registration_receipt
--     Capacity, Topology, Registration   validate_registration, _validate_topology, the provisioning grant
--     Messages     the registrations and requests that the connector writes; validate_response
--   SharedPool     shared_pool.py
--     Blocks       VllmElasticBlockPool: __init__, bind, apply, with their rollbacks
--     Worker       apply_worker_resize, and map_segments and unmap_segments of CudaVmmBuffer
--     Vmm          map_segments, unmap_segments and close of _ManagedVmmImport; Restore: after a failure;
--                  Cuda: _CudaVmmDriver over libcuda
--     Binding      vllm_backing_geometry, select_cuda_binding, vllm_distributed_rank; Selected: the result
--     Views        attachment_views of VllmSharedPoolHook, _tensor_span_bytes; Spans: within the allocation
--   Client         client.py, and make_envelope of contract.py
--     Frame        _read_frame_with_handles; Handles: the descriptors, Content: the bytes
--     Rpc          _rpc_with_handles, _rpc, _expect; Handles: the descriptors, Answer: which answer,
--                  Ensured: the checks after a call
--     Poll, Register   the calls that receive descriptors
--     Calls        the calls that do not
--   Connector      connector.py, the scheduler's and the worker's side of KapslConnectorV1
--     Leases       on_new_request, request_finished, shutdown, _heartbeat_loop, as threads that run from one
--                  call of the coordinator to the next; Worlds: their interleavings, Failure: lost authority
--     Resizes      _poll_scheduler_resizes and _apply_scheduler_resizes; Order: their interleavings
--     Worker       _apply_worker_resizes, start_load_kv, wait_for_save; Resized: what a step does, Fence: the
--                  forward lock
--     Ranks        _validated_shared_rank_device_map and the other configuration readers; Placement: the
--                  map is a bijection, Pigeonhole: the counting for it
--   Packaging      Closure: merge_candidates, is_host_library and resolve_dependency_closure of
--                  package_accelerator.py; Sound: what is selected, Fuel: that the loop ends
-- The modules named Examples, and Contract.Accepted, run the definitions and the theorems on concrete
-- values.
--
-- How the code is read. A function that raises returns a Result, and a raise is an error value that
-- keeps the case but not the wording of the message. Python integers are unbounded, so numbers are ℕ,
-- and ℤ where a value comes from outside; the 64-bit bound of the planner is written out. A dictionary
-- is a list of fields, of which the first with a given name counts. A validator that returns a deep
-- copy of its argument, or nothing, returns here the values that it read. sorted is the stable sort by
-- the key; a set is a test of membership. A call that changes an object returns the object after it,
-- on an error too. All loops are structural but that of resolve_dependency_closure, whose fuel is the
-- number of the candidates: each library is selected once.
--
-- What is a parameter. str.upper; int of a text or of a fraction (SharedPool.Binding); vLLM's block
-- pool (SharedPool.Blocks.BlockQueue), with the documented laws of its free queue in
-- SharedPool.Blocks.Laws.Lawful; the CUDA library (SharedPool.Vmm.Cuda.Library), whose
-- documented effects (SharedPool.Vmm.Cuda.Documented) give the driver the accounts that
-- SharedPool.Vmm.Restore takes, with the premise there that unmapping and releasing do not raise; the
-- result of the cuMemUnmap by which map undoes itself is not looked at in the code, and Documented has it
-- succeed; with the synchronisation and the zero
-- count of PyTorch. A worker's buffer uses the import through an interface (SharedPool.Worker.Import),
-- which SharedPool.Vmm.vmm_import fills. For the client: JSON's encoder and decoder, and the peer
-- (Client.Rpc.Peer), a list of what the calls of recvmsg give; a list that ends before the call does
-- is a result of its own, which holds the descriptors so far. For the connector: the coordinator,
-- whose replies are an argument; a call that raises is taken not to have had its effect there. That it
-- sends the next resize operation only once the one before is acknowledged is a premise of
-- Connector.Resizes.Order.Move.
--
-- Not modelled: the documents that to_dict and the JSON schemas print, the digest of the geometry, the
-- extraction of the geometry from vLLM's configuration objects, the rest of shared_pool.py, the
-- constructor, the configuration helpers and register_kv_caches of connector.py, the constructor of
-- the client, the CLI plan.py, the attention probe and certification.py; of the repository, the Rust
-- crate, the rest of the packaging and the conformance tools of integrations/ort.
pub mod Client
pub mod Connector
pub mod Contract
pub mod Packaging
pub mod Planning
pub mod Prelude
pub mod SharedPool
