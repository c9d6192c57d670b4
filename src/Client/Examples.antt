-- ===== src/Client/Examples.antt =====
-- Runs of the client (client.py) on concrete peers, and its theorems at them.
use kapsl_integrations.Prelude.{
  ℕ, String, true, Option, some, List, [], ◌∷◌, ok, err, ◌≡◌, ◌++◌, arith, refl,
}
use kapsl_integrations.Prelude.Sorting.{sorted}
use kapsl_integrations.Prelude.Texts.{strip}
use kapsl_integrations.Prelude.Values.{
  Value, Fields, bool, str, arr, obj, no_items, item, no_fields, entry, get, lookup, elements, keys,
  same_value,
}
use kapsl_integrations.Contract.Checks.{mapping, nonempty, positive_int, nonnegative_int, is_member}
use kapsl_integrations.Contract.Version.{accepts_version}
use kapsl_integrations.Contract.Shard.{validate_adapter_profile}
use kapsl_integrations.Contract.Attachment.{nonempty_list, optional_name}
use kapsl_integrations.Contract.Segments.{walk}
use kapsl_integrations.Contract.Elastic.{mapped_segments, segment_key, validate_elastic_pool}
use kapsl_integrations.Contract.Capacity.{
  validate_capacity_groups, validate_domains, domain_identity, maximum_allocations,
}
use kapsl_integrations.Contract.Topology.{
  validate_topology, topology_shard, validate_cache_groups, validate_layers, validate_geometry,
  validate_element, validate_policy,
}
use kapsl_integrations.Contract.Resize.{
  resize_stage, segment_list, keyed, validate_resize_operation, validate_resize_actor,
}
use kapsl_integrations.Contract.Receipt.{
  validate_registration_receipt, validate_pools, pool_list, elastic_of,
}
use kapsl_integrations.Contract.Requests.{validate_resize_poll_request}
use kapsl_integrations.Contract.Registration.{
  validate_registration, check_tier, check_shared, both_lists, topology_of, check_grant,
}
use kapsl_integrations.Contract.Messages.{validate_response}
use kapsl_integrations.Contract.Examples.{count, growth, grown}
use kapsl_integrations.Contract.Accepted.{receipt, received, registration, version}
use kapsl_integrations.Client.Frame.{
  rights, Event, packet, raised, frame, waiting, transport, stop, gather, finish, line_of,
  read_loop, read_frame_with_handles,
}
use kapsl_integrations.Client.Frame.Handles.{
  descriptors, held, read_frame_with_handles-Kept, read_frame_with_handles-loses,
}
use kapsl_integrations.Client.Frame.Content.{stream, read_frame_with_handles-delivers}
use kapsl_integrations.Client.Rpc.{
  Peer, Call, make_envelope, judged, checked_response, exchanged, expect, rpc_with_handles, rpc,
  wrapped, unexpected_handles,
}
use kapsl_integrations.Client.Rpc.Handles.{Keeps}
use kapsl_integrations.Client.Rpc.Answer.{Answers, rpc_with_handles-Answers}
use kapsl_integrations.Client.Poll.{
  Polled, resize_operation, referenced, check_poll, poll_resize_state_with_handles,
}
use kapsl_integrations.Client.Poll.Laws.{
  IsPolled, polled_handles, poll_resize_state_with_handles-IsPolled,
  poll_resize_state_with_handles-Keeps,
}
use kapsl_integrations.Client.Calls.{heartbeat}
use kapsl_integrations.Client.Register.{
  is_live, registered_tier, check_registered, register_with_handles,
}
use kapsl_integrations.Client.Register.Laws.{IsRegistered, register_with_handles-IsRegistered}

-- The frame 1 2, its newline 10 and a byte of something else, in two packets with a handle each.
abbrev first_part : List Event
first_part = packet (1 ∷ []) (rights (8 ∷ []) ∷ []) ∷ []

abbrev events : List Event
events =
    packet (1 ∷ []) (rights (8 ∷ []) ∷ []) ∷ packet (2 ∷ 10 ∷ 3 ∷ []) (rights (9 ∷ []) ∷ []) ∷ []

frame_read :
    read_frame_with_handles 100 events
    ≡ record { result = frame (1 ∷ 2 ∷ []) (8 ∷ 9 ∷ []); closed = []; rest = [] }
unfolding read_frame_with_handles read_loop gather finish line_of
frame_read = refl

part_read : (read_frame_with_handles 100 first_part).result ≡ waiting (8 ∷ [])
unfolding read_frame_with_handles read_loop gather finish line_of
part_read = refl

result_read : (read_frame_with_handles 100 events).result ≡ frame (1 ∷ 2 ∷ []) (8 ∷ 9 ∷ [])
unfolding read_frame_with_handles read_loop gather finish line_of
result_read = refl

line_read : line_of (stream events) ≡ some (1 ∷ 2 ∷ [])
unfolding line_of
line_read = refl

read_frame_with_handles-Kept_example :
    (held (read_frame_with_handles 100 events).result
        ++ (read_frame_with_handles 100 events).closed)
      ++ descriptors (read_frame_with_handles 100 events).rest
    ≡ descriptors events
read_frame_with_handles-Kept_example = read_frame_with_handles-Kept 100 events refl

read_frame_with_handles-loses_example :
    read_frame_with_handles 100 (first_part ++ raised ∷ []) ≡ stop transport [] []
read_frame_with_handles-loses_example =
    read_frame_with_handles-loses 100 first_part [] (8 ∷ []) part_read

read_frame_with_handles-delivers_example :
    (handles : List ℕ) × ((read_frame_with_handles 100 events).result ≡ frame (1 ∷ 2 ∷ []) handles)
read_frame_with_handles-delivers_example =
    read_frame_with_handles-delivers 100 events (1 ∷ 2 ∷ []) refl (omega arith) line_read refl
      (omega arith)

abbrev peer : Peer
peer = record { is_reached = true; events = events }

abbrev encode : Fields → List ℕ
encode envelope = 1 ∷ []

abbrev response : String → Fields → Fields
response result more =
    entry "abi_version" version (entry "request_id" (str "r") (entry "result" (str result) more))

abbrev sends : Fields → List ℕ → Option Value
sends answer line = some (obj answer)

abbrev resize_response : Fields
resize_response =
    response "resize" (
      entry "pending" (bool true) (entry "operations" (arr (item (obj growth) no_items)) no_fields))

abbrev poll_request : Fields
poll_request = entry "participant_epoch" (count 3) (
    entry "actor" (obj (entry "role" (str "scheduler") no_fields))
      (entry "applied_generation" (count 0) no_fields))

rpc_answered :
    (rpc_with_handles encode (sends resize_response) 100 "r" "resize_poll" no_fields peer).result
    ≡ ok (resize_response, 8 ∷ 9 ∷ [])
unfolding rpc_with_handles exchanged make_envelope checked_response judged validate_response
    accepts_version is_member mapping nonempty strip read_frame_with_handles read_loop gather finish
    line_of get lookup same_value
rpc_answered = refl

rpc_with_handles-Answers_example :
    (line : List ℕ) × ((line_of (stream events) ≡ some line)
      × ((sends resize_response line ≡ some (obj resize_response)) × Answers "r" resize_response))
rpc_with_handles-Answers_example =
    rpc_with_handles-Answers encode (sends resize_response) 100 "r" "resize_poll" no_fields peer
      (resize_response, 8 ∷ 9 ∷ []) rpc_answered

abbrev polled_answer : Polled
polled_answer = record { operations = grown ∷ []; handles = 8 ∷ 9 ∷ []; pending = true }

polls :
    (poll_resize_state_with_handles encode
      (sends resize_response)
      100
      "vllm"
      "r"
      poll_request
      peer).result
    ≡ ok polled_answer
unfolding poll_resize_state_with_handles check_poll resize_operation referenced expect
    validate_resize_poll_request validate_resize_actor validate_resize_operation segment_list
    resize_stage keyed walk sorted rpc_with_handles exchanged make_envelope checked_response judged
    validate_response accepts_version is_member mapping nonempty positive_int nonnegative_int strip
    read_frame_with_handles read_loop gather finish line_of get lookup elements keys same_value
polls = refl

poll_resize_state_with_handles-IsPolled_example : IsPolled polled_answer
poll_resize_state_with_handles-IsPolled_example =
    poll_resize_state_with_handles-IsPolled encode (sends resize_response) 100 "vllm" "r"
      poll_request peer polled_answer polls

poll_resize_state_with_handles-Keeps_example :
    Keeps polled_handles
      (8 ∷ 9 ∷ [])
      (poll_resize_state_with_handles encode (sends no_fields) 100 "vllm" "r" poll_request peer)
poll_resize_state_with_handles-Keeps_example =
    poll_resize_state_with_handles-Keeps encode (sends no_fields) 100 "vllm" "r" poll_request peer
      refl

registers :
    (register_with_handles encode
      (sends (response "registered" (entry "receipt" (obj receipt) no_fields)))
      100
      "vllm"
      "r"
      (registration "g")
      peer).result
    ≡ ok (received, 8 ∷ 9 ∷ [])
unfolding register_with_handles check_registered is_live expect validate_registration check_tier
    check_shared both_lists topology_of check_grant validate_topology topology_shard
    validate_cache_groups validate_layers validate_geometry validate_element validate_policy
    validate_capacity_groups validate_domains domain_identity maximum_allocations nonempty_list
    optional_name validate_adapter_profile same_value validate_registration_receipt validate_pools
    pool_list elastic_of validate_elastic_pool mapped_segments segment_key walk sorted
    rpc_with_handles exchanged make_envelope checked_response judged validate_response
    accepts_version is_member mapping nonempty positive_int nonnegative_int strip
    read_frame_with_handles read_loop gather finish line_of get lookup elements
registers = refl

register_with_handles-IsRegistered_example :
    IsRegistered
      (registered_tier (wrapped (validate_registration (registration "g"))))
      (is_live (registration "g"))
      (received, 8 ∷ 9 ∷ [])
register_with_handles-IsRegistered_example =
    register_with_handles-IsRegistered encode
      (sends (response "registered" (entry "receipt" (obj receipt) no_fields))) 100 "vllm" "r"
      (registration "g") peer (received, 8 ∷ 9 ∷ []) registers

-- An opaque peer that sends handles with an acknowledgement gets an error, and they are closed.
abbrev heartbeat_call : Call (Unit {0})
heartbeat_call = heartbeat encode (sends (response "ack" no_fields)) 100 "vllm" "r" peer

handles_refused :
    heartbeat_call
    ≡ record { result = err unexpected_handles; held = []; closed = 8 ∷ 9 ∷ []; rest = [] }
unfolding heartbeat rpc rpc_with_handles exchanged make_envelope checked_response judged
    validate_response accepts_version is_member mapping nonempty strip read_frame_with_handles
    read_loop gather finish line_of get lookup same_value
handles_refused = refl
