-- ===== src/Contract/Receipt.antt =====
-- `validate_registration_receipt` of contract.py.
use kapsl_integrations.Prelude.{
  ℕ, ◌<◌, ◌≡◌, refl, String, Bool, true, false, not, Option, none, some, List, [], ◌∷◌, ok, err,
  raise_if, traverse, ◌⊎◌, inl, inr, All, Ensures, Ensures-ok, Ensures-bind, Ensures-skip,
  Ensures-raise_if, ◌>>=◌, ◌>>◌,
}
use kapsl_integrations.Prelude.Values.{
  Value, Fields, null, arr, str, get, get_or, no_items, elements,
}
use kapsl_integrations.Contract.Checks.{
  Checked, mapping, nonempty, positive_int, is_member, receipt_participant, pools_not_a_list,
  unknown_allocation_mode, pool_groups_missing, mixed_transports, elastic_unexpected,
}
use kapsl_integrations.Contract.Segments.{positive-Ensures}
use kapsl_integrations.Contract.Attachment.{nonempty_list}
use kapsl_integrations.Contract.Resize.{is_text}
use kapsl_integrations.Contract.Elastic.{
  ElasticPool, validate_elastic_pool, IsElastic, validate_elastic_pool-Ensures,
}

pub record PoolReceipt : Type 0 where
  pub binding_id : String
  pub capacity_pool_id : String
  pub generation : ℕ
  pub block_count : ℕ
  pub bytes_per_block : ℕ
  pub group_ids : List String
  pub elastic : Option ElasticPool

pub record Receipt : Type 0 where
  pub participant_epoch : ℕ
  pub shared_pools : List PoolReceipt

-- `elastic is not None`
abbrev pub is_set : Value → Bool
is_set null = false
is_set _ = true

-- The elastic state of a pool, which a live transport must have and another must not.
unfoldable pub elastic_of : Bool → Value → ℕ → ℕ → Checked (Option ElasticPool)
elastic_of true elastic block_count bytes_per_block = do
  fields ← mapping elastic "elastic shared pool"
  pool ← validate_elastic_pool fields block_count bytes_per_block
  ok (some pool)
elastic_of false elastic block_count bytes_per_block = do
  raise_if (is_set elastic) elastic_unexpected
  ok none

-- `live_resize`, with the test against the pools before.
abbrev pub differs : Option Bool → Bool → Bool
differs none live = false
differs (some true) live = not live
differs (some false) live = live

unfoldable pub validate_pools : Option Bool → List Value → Checked (List PoolReceipt)
validate_pools live_resize [] = ok []
validate_pools live_resize (raw_pool ∷ rest) = do
  pool ← mapping raw_pool "shared pool"
  binding_id ← nonempty (get pool "binding_id") "binding_id"
  capacity_pool_id ← nonempty (get pool "capacity_pool_id") "capacity_pool_id"
  generation ← positive_int (get pool "generation") "generation"
  block_count ← positive_int (get pool "block_count") "block_count"
  bytes_per_block ← positive_int (get pool "bytes_per_block") "bytes_per_block"
  known ←
      is_member (get_or pool "allocation_mode" (str "runtime_leased"))
        ("runtime_leased" ∷ "participant_managed" ∷ [])
  raise_if (not known) unknown_allocation_mode
  nonempty (get pool "descriptor") "descriptor"
  raw_ids ← nonempty_list pool_groups_missing (get pool "group_ids")
  group_ids ← traverse (λ v. nonempty v "shared pool group_id") raw_ids
  mapping (get pool "memory_domain") "shared pool memory_domain"
  transport ← mapping (get pool "transport") "shared pool transport"
  let live = is_text (get transport "kind") "cuda_vmm"
  raise_if (differs live_resize live) mixed_transports
  elastic ← elastic_of live (get pool "elastic") block_count bytes_per_block
  pools ← validate_pools (some live) rest
  ok (
      record {
        binding_id = binding_id;
        capacity_pool_id = capacity_pool_id;
        generation = generation;
        block_count = block_count;
        bytes_per_block = bytes_per_block;
        group_ids = group_ids;
        elastic = elastic;
      }
      ∷ pools)

-- `receipt.get("shared_pools", [])`, which must be a list.
unfoldable pub pool_list : Value → Checked (List Value)
pool_list (arr items) = ok (elements items)
pool_list _ = err pools_not_a_list

unfoldable pub validate_registration_receipt : Fields → String → Checked Receipt
validate_registration_receipt receipt participant_id = do
  participant ← nonempty (str participant_id) "participant_id"
  raise_if (not (is_text (get receipt "participant_id") participant)) receipt_participant
  epoch ← positive_int (get receipt "participant_epoch") "participant_epoch"
  raw ← pool_list (get_or receipt "shared_pools" (arr no_items))
  pools ← validate_pools none raw
  ok (record { participant_epoch = epoch; shared_pools = pools })

-- A pool is elastic, within its own geometry, or fixed.
abbrev pub IsLive : Bool → ℕ → ℕ → Option ElasticPool → Type 0
IsLive live blocks stride none = live ≡ false
IsLive live blocks stride (some pool) = (live ≡ true) × IsElastic blocks stride pool

abbrev pub IsPool : Bool → PoolReceipt → Type 0
IsPool live p =
    (0 < p.generation)
    × (0 < p.block_count)
    × (0 < p.bytes_per_block)
    × IsLive live p.block_count p.bytes_per_block p.elastic

-- All pools are elastic or all are fixed, in the kind that is given if one is.
abbrev pub AllAlike : Option Bool → List PoolReceipt → Type 0
AllAlike none pools = All (IsPool true) pools ⊎ All (IsPool false) pools
AllAlike (some live) pools = All (IsPool live) pools

AllAlike-join :
    (live_resize : Option Bool) (live : Bool) (p : PoolReceipt) (ps : List PoolReceipt)
    → differs live_resize live ≡ false
    → IsPool live p
    → AllAlike (some live) ps
    → AllAlike live_resize (p ∷ ps)
AllAlike-join none true p ps same h hs = inl (h, hs)
AllAlike-join none false p ps same h hs = inr (h, hs)
AllAlike-join (some true) true p ps same h hs = (h, hs)
AllAlike-join (some true) false p ps same h hs = cc
AllAlike-join (some false) true p ps same h hs = cc
AllAlike-join (some false) false p ps same h hs = (h, hs)

elastic_of-Ensures :
    (live : Bool) (elastic : Value) (block_count bytes_per_block : ℕ)
    → Ensures
        (IsLive live block_count bytes_per_block)
        (elastic_of live elastic block_count bytes_per_block)
unfolding elastic_of
elastic_of-Ensures true elastic block_count bytes_per_block =
    Ensures-skip (mapping elastic "elastic shared pool") _ λ fields.
      Ensures-bind _ _ (validate_elastic_pool-Ensures fields block_count bytes_per_block)
        λ pool h. Ensures-ok _ (refl, h)
elastic_of-Ensures false elastic block_count bytes_per_block =
    Ensures-raise_if (is_set elastic) _ _ λ _. Ensures-ok _ refl

validate_pools-Ensures :
    (live_resize : Option Bool) (raw : List Value)
    → Ensures (AllAlike live_resize) (validate_pools live_resize raw)
unfolding validate_pools
validate_pools-Ensures none [] = Ensures-ok _ (inl tt)
validate_pools-Ensures (some live) [] = Ensures-ok _ tt
validate_pools-Ensures live_resize (raw_pool ∷ rest) =
    Ensures-skip (mapping raw_pool "shared pool") _ λ pool.
      Ensures-skip (nonempty (get pool "binding_id") "binding_id") _ λ binding_id.
        Ensures-skip (nonempty (get pool "capacity_pool_id") "capacity_pool_id") _
          λ capacity_pool_id.
            Ensures-bind _ _ (positive-Ensures (get pool "generation") "generation") λ generation g.
              Ensures-bind _ _ (positive-Ensures (get pool "block_count") "block_count")
                λ block_count b.
                  Ensures-bind _ _ (positive-Ensures (get pool "bytes_per_block") "bytes_per_block")
                    λ stride s.
                      Ensures-skip
                        (is_member (get_or pool "allocation_mode" (str "runtime_leased"))
                          ("runtime_leased" ∷ "participant_managed" ∷ []))
                        _
                        λ known. Ensures-raise_if (not known) _ _ λ _.
                          Ensures-skip (nonempty (get pool "descriptor") "descriptor") _ λ _.
                            Ensures-skip (nonempty_list pool_groups_missing (get pool "group_ids"))
                              _
                              λ raw_ids.
                                Ensures-skip
                                  (traverse (λ v. nonempty v "shared pool group_id") raw_ids) _
                                  λ group_ids.
                                    Ensures-skip
                                      (mapping (get pool "memory_domain")
                                        "shared pool memory_domain")
                                      _
                                      λ _.
                                        Ensures-skip
                                          (mapping (get pool "transport") "shared pool transport") _
                                          λ transport.
                                            Ensures-raise_if
                                              (differs live_resize
                                                (is_text (get transport "kind") "cuda_vmm"))
                                              _ _
                                              λ same.
                                                Ensures-bind _ _
                                                  (elastic_of-Ensures
                                                    (is_text (get transport "kind") "cuda_vmm")
                                                    (get pool "elastic") block_count stride)
                                                  λ elastic e.
                                                    Ensures-bind _ _
                                                      (validate_pools-Ensures
                                                        (some (
                                                          is_text (get transport "kind")
                                                            "cuda_vmm"))
                                                        rest)
                                                      λ pools hs. Ensures-ok _ (
                                                        AllAlike-join live_resize
                                                          (is_text (get transport "kind")
                                                            "cuda_vmm")
                                                          _ pools same (g, b, s, e) hs)

pub record IsReceipt (r : Receipt) : Type 0 where
  pub epoch : 0 < r.participant_epoch
  pub pools : AllAlike none r.shared_pools

validate_registration_receipt-Ensures :
    (receipt : Fields) (participant_id : String)
    → Ensures IsReceipt (validate_registration_receipt receipt participant_id)
unfolding validate_registration_receipt
validate_registration_receipt-Ensures receipt participant_id =
    Ensures-skip (nonempty (str participant_id) "participant_id") _ λ participant.
      Ensures-raise_if (not (is_text (get receipt "participant_id") participant)) _ _ λ _.
        Ensures-bind _ _ (positive-Ensures (get receipt "participant_epoch") "participant_epoch")
          λ epoch positive.
            Ensures-skip (pool_list (get_or receipt "shared_pools" (arr no_items))) _ λ raw.
              Ensures-bind _ _ (validate_pools-Ensures none raw)
                λ pools alike. Ensures-ok _ (record { epoch = positive; pools = alike })

-- A registration receipt is accepted only when all its pools are elastic, each with an elastic state that
-- is valid for its own block count and stride, or all are fixed and none has an elastic state.
pub validate_registration_receipt-IsReceipt :
    (receipt : Fields) (participant_id : String) (r : Receipt)
    → validate_registration_receipt receipt participant_id ≡ ok r
    → IsReceipt r
validate_registration_receipt-IsReceipt receipt participant_id r h =
    (validate_registration_receipt-Ensures receipt participant_id).at r h
