-- ===== src/Contract/Registration/Laws.antt =====
-- What an accepted registration looks like.
use kapsl_integrations.Prelude.{
  ap, ◌&&◌, ◌||◌, str_eq_iff, unnot, Ensures-err, Ensures-if, ◌≡◌, refl, String, Bool, true, false,
  not, Option, none, some, List, [], ok, Ensures, Ensures-ok, Ensures-bind, Ensures-skip,
  Ensures-raise_if,
}
use kapsl_integrations.Prelude.Values.{
  Value, Fields, Items, null, bool, int, float, str, arr, obj, get, lookup,
}
use kapsl_integrations.Contract.Resize.{is_text}
use kapsl_integrations.Contract.Receipt.{is_set}
use kapsl_integrations.Contract.Checks.{mapping, nonempty, capacity_groups_missing}
use kapsl_integrations.Contract.Version.{accepts_version}
use kapsl_integrations.Contract.Attachment.{nonempty_list}
use kapsl_integrations.Contract.Capacity.{AreCapacityGroups, validate_capacity_groups-Ensures}
use kapsl_integrations.Contract.Topology.{Topology, IsTopology, validate_topology-Ensures}
use kapsl_integrations.Contract.Registration.{
  Tier, kv_connected, shared_pool, tier_of, both_lists, has_feature, check_tier, is_shared, ids_of,
  topology_of, check_grant, check_connected, check_shared, has_key, has_transport, Registration,
  validate_registration,
}

-- A shared pool has a topology of exactly its capacity groups; none is read of a connected backend.
abbrev pub HasTopology : Tier → List String → Option Topology → Type 0
HasTopology kv_connected ids topology = topology ≡ none
HasTopology shared_pool ids none = false ≡ true
HasTopology shared_pool ids (some t) = IsTopology ids t

-- A connected backend gives neither a topology nor a profile, and keeps its own cache behind metadata that
-- says nothing of its layout.
pub record IsOpaque (registration capabilities : Fields) : Type 0 where
  pub no_topology : lookup registration "topology" ≡ none
  pub no_profile : lookup registration "adapter_profile" ≡ none
  pub metadata : get capabilities "metadata_mode" ≡ str "opaque"
  pub ownership : get capabilities "ownership" ≡ str "backend"

-- A shared pool is the runtime's, with described metadata.
pub record IsStructured (capabilities : Fields) : Type 0 where
  pub metadata : get capabilities "metadata_mode" ≡ str "structured"
  pub ownership : get capabilities "ownership" ≡ str "kapsl_runtime"

abbrev pub IsOfTier : Tier → Fields → Fields → Type 0
IsOfTier kv_connected registration capabilities = IsOpaque registration capabilities
IsOfTier shared_pool registration capabilities = IsStructured capabilities

-- A connected backend gives no provisioning grant.
abbrev pub MayGrant : Tier → Value → Type 0
MayGrant kv_connected grant = grant ≡ null
MayGrant shared_pool grant = Unit

pub record IsRegistration (registration : Fields) (r : Registration) : Type 0 where
  pub capabilities : Fields
  pub offered : get registration "capabilities" ≡ obj capabilities
  pub tier : IsOfTier r.tier registration capabilities
  pub groups : AreCapacityGroups (is_shared r.tier) [] [] r.groups
  pub topology : HasTopology r.tier (ids_of r.groups) r.topology
  pub grant : MayGrant r.tier (get registration "provisioning_grant")

mapping-Ensures :
    (value : Value) (field : String) → Ensures (λ fields. value ≡ obj fields) (mapping value field)
unfolding mapping
mapping-Ensures (obj fields) field = Ensures-ok fields refl
mapping-Ensures null field = Ensures-err _
mapping-Ensures (bool b) field = Ensures-err _
mapping-Ensures (int n) field = Ensures-err _
mapping-Ensures (float n text) field = Ensures-err _
mapping-Ensures (str s) field = Ensures-err _
mapping-Ensures (arr items) field = Ensures-err _

is_text-eq : (value : Value) (text : String) → is_text value text ≡ true → value ≡ str text
is_text-eq (str s) text h = ap str ((str_eq_iff s text).0 h)
is_text-eq _ text h = cc

has_key-none :
    (fields : Fields) (key : String) → has_key fields key ≡ false → lookup fields key ≡ none
has_key-none fields key h = go (lookup fields key) h
  where
    go :
        (found : Option Value)
        → (elim found as (λ _. Bool) [ none ↦ false | some value ↦ true ]) ≡ false
        → found ≡ none
    go none h = refl
    go (some value) h = cc

check_connected-IsOpaque :
    (registration capabilities : Fields) (transports : Items)
    → Ensures
        (λ _. IsOpaque registration capabilities)
        (check_connected registration capabilities transports)
unfolding check_connected
check_connected-IsOpaque registration capabilities transports =
    Ensures-raise_if (not (is_text (get capabilities "metadata_mode") "opaque")) _ _ λ metadata.
      Ensures-raise_if (not (is_text (get capabilities "ownership") "backend")) _ _ λ ownership.
        Ensures-raise_if (not (has_transport transports "backend_opaque")) _ _ λ _.
          Ensures-raise_if (has_key registration "topology") _ _ λ no_topology.
            Ensures-raise_if (has_key registration "adapter_profile") _ _ λ no_profile.
              Ensures-ok tt (record {
                no_topology = has_key-none registration "topology" no_topology;
                no_profile = has_key-none registration "adapter_profile" no_profile;
                metadata = is_text-eq _ _ (unnot metadata);
                ownership = is_text-eq _ _ (unnot ownership);
              })

check_shared-IsStructured :
    (registration capabilities : Fields) (features : List Value) (transports : Items)
    → Ensures
        (λ _. IsStructured capabilities)
        (check_shared registration capabilities features transports)
unfolding check_shared
check_shared-IsStructured registration capabilities features transports =
    Ensures-raise_if (not (is_text (get capabilities "metadata_mode") "structured")) _ _ λ metadata.
      Ensures-raise_if (not (is_text (get capabilities "ownership") "kapsl_runtime")) _ _
        λ ownership. record {
          at = λ u h. record {
            metadata = is_text-eq _ _ (unnot metadata);
            ownership = is_text-eq _ _ (unnot ownership);
          };
        }

check_tier-IsOfTier :
    (tier : Tier) (registration capabilities : Fields) (features : List Value) (transports : Items)
    → Ensures
        (λ _. IsOfTier tier registration capabilities)
        (check_tier tier registration capabilities features transports)
unfolding check_tier
check_tier-IsOfTier kv_connected registration capabilities features transports =
    check_connected-IsOpaque registration capabilities transports
check_tier-IsOfTier shared_pool registration capabilities features transports =
    check_shared-IsStructured registration capabilities features transports

not_set : (value : Value) → is_set value ≡ false → value ≡ null
not_set null h = refl
not_set _ h = cc

check_grant-MayGrant :
    (tier : Tier) (capabilities : Fields) (grant : Value) (advertised : Bool)
    → Ensures (λ _. MayGrant tier grant) (check_grant tier capabilities grant advertised)
unfolding check_grant
check_grant-MayGrant shared_pool capabilities grant advertised = record { at = λ u h. tt }
check_grant-MayGrant kv_connected capabilities grant advertised =
    Ensures-raise_if ((advertised && not (is_set grant)) || (not advertised && is_set grant)) _ _
      λ _.
        Ensures-if (is_set grant) _ _ (λ set. Ensures-err _)
          λ unset. Ensures-ok tt (not_set grant unset)

topology_of-Ensures :
    (tier : Tier) (registration : Fields) (fingerprint : String) (ids : List String)
    (version : Value) (multiple : Bool)
    → Ensures
        (HasTopology tier ids)
        (topology_of tier registration fingerprint ids version multiple)
unfolding topology_of
topology_of-Ensures kv_connected registration fingerprint ids version multiple = Ensures-ok _ refl
topology_of-Ensures shared_pool registration fingerprint ids version multiple =
    Ensures-skip (mapping (get registration "topology") "topology") _ λ fields.
      Ensures-bind _ _ (validate_topology-Ensures fields fingerprint ids version multiple)
        λ topology h. Ensures-ok _ h

validate_registration-Ensures :
    (registration : Fields)
    → Ensures (IsRegistration registration) (validate_registration registration)
unfolding validate_registration
validate_registration-Ensures registration =
    Ensures-skip (nonempty (get registration "participant_id") "participant_id") _ λ _.
      Ensures-skip (nonempty (get registration "backend") "backend") _ λ _.
        Ensures-skip (nonempty (get registration "model_fingerprint") "model_fingerprint") _
          λ fingerprint.
            Ensures-bind (mapping (get registration "capabilities") "capabilities") _
              (mapping-Ensures _ _)
              λ capabilities offered.
                Ensures-skip (mapping (get capabilities "abi_version") "abi_version") _ λ version.
                  Ensures-raise_if (not (accepts_version version)) _ _ λ _.
                    Ensures-skip
                      (both_lists (get capabilities "features") (get capabilities "transports")) _
                      λ (features, transports).
                        Ensures-raise_if (not (has_feature features "capacity_leasing")) _ _ λ _.
                          Ensures-skip (tier_of (get capabilities "tier")) _ λ tier.
                            Ensures-bind
                              (check_tier tier registration capabilities features transports) _
                              (check_tier-IsOfTier tier registration capabilities features
                                transports)
                              λ _ of_tier.
                                Ensures-skip
                                  (mapping (get registration "capacity_model") "capacity_model") _
                                  λ capacity_model.
                                    Ensures-skip
                                      (nonempty_list capacity_groups_missing
                                        (get capacity_model "groups"))
                                      _
                                      λ raw_groups.
                                        Ensures-bind _ _
                                          (validate_capacity_groups-Ensures (is_shared tier) [] []
                                            raw_groups)
                                          λ groups sound.
                                            Ensures-bind _ _
                                              (topology_of-Ensures tier registration fingerprint
                                                (ids_of groups) (get capabilities "abi_version")
                                                (has_feature features "multiple_cache_groups"))
                                              λ topology h.
                                                Ensures-bind
                                                  (check_grant tier capabilities
                                                    (get registration "provisioning_grant")
                                                    (has_feature features "provisioning_grant"))
                                                  _
                                                  (check_grant-MayGrant tier capabilities
                                                    (get registration "provisioning_grant")
                                                    (has_feature features "provisioning_grant"))
                                                  λ _ grant. Ensures-ok _ (record {
                                                    capabilities = capabilities;
                                                    offered = offered;
                                                    tier = of_tier;
                                                    groups = sound;
                                                    topology = h;
                                                    grant = grant;
                                                  })

-- A registration is accepted only with sound capacity groups, each named once and with the domains of the
-- first group of its pool. A shared pool is the runtime's, with structured metadata; it must bound every
-- group and give a topology of exactly these groups, whose shard lies in its world and whose layers are
-- distinct. A connected backend owns its cache, with opaque metadata, and gives no topology, no adapter
-- profile and no provisioning grant.
pub validate_registration-IsRegistration :
    (registration : Fields) (r : Registration)
    → validate_registration registration ≡ ok r
    → IsRegistration registration r
validate_registration-IsRegistration registration r h =
    (validate_registration-Ensures registration).at r h
