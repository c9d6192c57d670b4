-- ===== src/Connector/Ranks/Examples.antt =====
-- Two ranks on two devices, and what the configuration readers of connector.py refuse.
use kapsl_integrations.Prelude.{ℕ, some, List, [], ◌∷◌, ok, err, ◌≡◌, refl}
use kapsl_integrations.Prelude.Values.{Value, Fields, str, no_fields, entry, get}
use kapsl_integrations.Contract.Examples.{count}
use kapsl_integrations.Contract.Accepted.{receipt}
use kapsl_integrations.Prelude.Values.{elements}
use kapsl_integrations.Connector.Ranks.{
  items, duplicate_rank, devices_mismatch, strict_nonnegative_integer, positive_integer, decimal,
  canonical_digits, canonical_rank, read_items, rank_device_map, check_map,
  validated_shared_rank_device_map, shape_of, one_shape, elastic_receipt_block_counts,
}
use kapsl_integrations.Connector.Ranks.Placement.{
  IsPlacement, device_list, validated_shared_rank_device_map-IsPlacement,
}

abbrev domains : List Fields
domains = entry "device_id" (count 4) no_fields ∷ entry "device_id" (count 7) no_fields ∷ []

abbrev raw_items : List (Value × Value)
raw_items = (str "1", count 4) ∷ (count 0, count 7) ∷ []

accepted_map :
    validated_shared_rank_device_map (items raw_items) domains (count 2)
    ≡ ok (some ((1, 4) ∷ (0, 7) ∷ []))
unfolding validated_shared_rank_device_map rank_device_map check_map read_items canonical_rank
    canonical_digits decimal strict_nonnegative_integer positive_integer get
accepted_map = refl

-- The text "1" and the number 1 are the same rank.
collision_refused :
    rank_device_map (items ((str "1", count 4) ∷ (count 1, count 7) ∷ [])) ≡ err duplicate_rank
unfolding rank_device_map read_items canonical_rank canonical_digits decimal
    strict_nonnegative_integer
collision_refused = refl

shared_device_refused :
    validated_shared_rank_device_map
      (items ((count 0, count 4) ∷ (count 1, count 4) ∷ []))
      domains
      (count 2)
    ≡ err devices_mismatch
unfolding validated_shared_rank_device_map rank_device_map check_map read_items canonical_rank
    canonical_digits decimal strict_nonnegative_integer positive_integer get
shared_device_refused = refl

block_counts_read : elastic_receipt_block_counts receipt ≡ ok (6, 20)
unfolding elastic_receipt_block_counts shape_of one_shape positive_integer get elements
block_counts_read = refl

validated_shared_rank_device_map-IsPlacement_example :
    (device_ids : List ℕ) × ((device_list domains ≡ ok device_ids)
      × IsPlacement device_ids ((1, 4) ∷ (0, 7) ∷ []))
validated_shared_rank_device_map-IsPlacement_example =
    validated_shared_rank_device_map-IsPlacement (items raw_items) domains (count 2)
      ((1, 4) ∷ (0, 7) ∷ []) accepted_map
