-- ===== src/Contract/Requests/Laws.antt =====
-- What the accepted requests look like, and that a reservation reads back as it was made.
use kapsl_integrations.Prelude.{
  ℕ, suc, ◌<◌, ◌≡◌, refl, String, true, false, not, Option, none, some, List, [], ◌∷◌, ok, traverse,
  map, str_eq, All, arith, Ensures, Ensures-ok, Ensures-bind, Ensures-skip, Ensures-raise_if, ◌>>=◌,
  ◌>>◌,
}
use kapsl_integrations.Prelude.Texts.{strip}
use kapsl_integrations.Prelude.Sorting.{contains, distinct}
use kapsl_integrations.Prelude.Values.{
  ℤ, pos, Value, Fields, int, str, arr, obj, no_fields, entry, get, elements,
}
use kapsl_integrations.Contract.Checks.{
  mapping, nonempty, positive_int, detach_without_bindings, groups_missing,
}
use kapsl_integrations.Contract.Segments.{positive-Ensures}
use kapsl_integrations.Contract.Shard.{IsShard, validate_shard-IsShard}
use kapsl_integrations.Contract.Attachment.{nonempty_list}
use kapsl_integrations.Contract.Resize.{is_text}
use kapsl_integrations.Contract.Requests.{
  Detach, validate_shared_pool_detach_request, optional_positive, validate_groups, Reservation,
  validate_reserve_request, group_items, ttl_field, checked_ttl, make_reserve_request,
}

abbrev pub IsText : String → Type 0
IsText s = str_eq (strip s) "" ≡ false

pub nonempty-ok : (s field : String) → IsText s → nonempty (str s) field ≡ ok s
unfolding nonempty
nonempty-ok s field h = rw h refl

-- No name is used twice, or is among those given.
abbrev pub FreshNames : List String → List (String × ℕ) → Type 0
FreshNames seen [] = Unit
FreshNames seen ((g, n) ∷ gs) = (contains str_eq seen g ≡ false) × FreshNames (g ∷ seen) gs

abbrev pub HasCapacity : String × ℕ → Type 0
HasCapacity (g, n) = 0 < n

validate_groups-Ensures :
    (seen : List String) (raw : List Value)
    → Ensures (λ groups. All HasCapacity groups × FreshNames seen groups) (validate_groups seen raw)
unfolding validate_groups
validate_groups-Ensures seen [] = Ensures-ok _ (tt, tt)
validate_groups-Ensures seen (raw_group ∷ rest) =
    Ensures-skip (mapping raw_group "group") _ λ group.
      Ensures-skip (nonempty (get group "group_id") "group_id") _ λ group_id.
        Ensures-raise_if (contains str_eq seen group_id) _ _ λ new.
          Ensures-bind _ _ (positive-Ensures (get group "token_capacity") "token_capacity")
            λ capacity positive.
              Ensures-bind _ _ (validate_groups-Ensures (group_id ∷ seen) rest)
                λ groups (all, fresh). Ensures-ok _ ((positive, all), (new, fresh))

pub record IsReservation (r : Reservation) : Type 0 where
  pub capacities : All HasCapacity r.groups
  pub unique : FreshNames [] r.groups

validate_reserve_request-Ensures :
    (request : Fields) → Ensures IsReservation (validate_reserve_request request)
unfolding validate_reserve_request
validate_reserve_request-Ensures request =
    Ensures-skip (mapping (get request "sequence") "sequence") _ λ sequence.
      Ensures-skip (nonempty (get sequence "request_id") "sequence.request_id") _ λ request_id.
        Ensures-skip (nonempty (get sequence "sequence_id") "sequence.sequence_id") _ λ sequence_id.
          Ensures-skip (nonempty_list groups_missing (get request "groups")) _ λ raw.
            Ensures-bind _ _ (validate_groups-Ensures [] raw) λ groups (all, fresh).
              Ensures-skip (optional_positive (get request "ttl_ms") "ttl_ms") _
                λ ttl_ms. Ensures-ok _ (record { capacities = all; unique = fresh })

-- A reservation is accepted only with a positive capacity for every group and no group twice.
pub validate_reserve_request-IsReservation :
    (request : Fields) (r : Reservation) → validate_reserve_request request ≡ ok r → IsReservation r
validate_reserve_request-IsReservation request r h =
    (validate_reserve_request-Ensures request).at r h

pub record IsDetach (d : Detach) : Type 0 where
  pub epoch : 0 < d.participant_epoch
  pub unique : distinct str_eq d.binding_ids ≡ true
  pub shard : IsShard d.shard

validate_shared_pool_detach_request-Ensures :
    (request : Fields) → Ensures IsDetach (validate_shared_pool_detach_request request)
unfolding validate_shared_pool_detach_request
validate_shared_pool_detach_request-Ensures request =
    Ensures-bind _ _ (positive-Ensures (get request "participant_epoch") "participant_epoch")
      λ epoch positive.
        Ensures-skip (nonempty_list detach_without_bindings (get request "binding_ids")) _ λ raw.
          Ensures-skip (traverse (λ v. nonempty v "detach binding_id") raw) _ λ normalized.
            Ensures-raise_if (not (distinct str_eq normalized)) _ _ λ unique.
              Ensures-skip (mapping (get request "shard") "detach shard") _ λ shard_fields.
                Ensures-bind _ _ (validate_shard-IsShard shard_fields) λ shard in_world.
                  Ensures-skip (mapping (get request "completion") "detach completion") _
                    λ completion.
                      Ensures-raise_if
                        (not (is_text (get completion "kind") "backend_synchronized")) _ _
                        λ synchronized.
                          Ensures-ok _
                            (record { epoch = positive; unique = ground arith; shard = in_world })

-- A detach request is accepted only with a positive epoch, a shard in its world, and no binding twice.
pub validate_shared_pool_detach_request-IsDetach :
    (request : Fields) (d : Detach)
    → validate_shared_pool_detach_request request ≡ ok d
    → IsDetach d
validate_shared_pool_detach_request-IsDetach request d h =
    (validate_shared_pool_detach_request-Ensures request).at d h

abbrev pub NewNames : List String → List String → Type 0
NewNames seen [] = Unit
NewNames seen (g ∷ gs) = (contains str_eq seen g ≡ false) × NewNames (g ∷ seen) gs

validate_groups-group_items :
    (n : ℕ) (seen gs : List String)
    → All IsText gs
    → NewNames seen gs
    → validate_groups seen (elements (group_items (pos (suc n)) gs)) ≡ ok (map (λ g. (g, suc n)) gs)
unfolding validate_groups elements mapping get positive_int
validate_groups-group_items n seen [] texts new = refl
validate_groups-group_items n seen (g ∷ gs) texts new =
    rw
      (
        nonempty-ok g "group_id" texts.0,
        new.0,
        validate_groups-group_items n (g ∷ seen) gs texts.1 new.1,
      )
      refl

checked_groups-ok :
    (n : ℕ) (gs : List String)
    → All IsText gs
    → traverse
        (λ g. do
          group_id ← nonempty (str g) "group_id"
          positive_int (int (pos (suc n))) "token_capacity"
          ok group_id)
        gs
      ≡ ok gs
unfolding positive_int
checked_groups-ok n [] texts = refl
checked_groups-ok n (g ∷ gs) texts =
    rw (nonempty-ok g "group_id" texts.0, checked_groups-ok n gs texts.1) refl

-- The message that `make_reserve_request` writes.
abbrev pub reserve_message : String → String → ℤ → List String → ℤ → Option ℤ → Fields
reserve_message request sequence capacity groups priority ttl_ms =
    entry "sequence"
      (obj (entry "request_id" (str request) (entry "sequence_id" (str sequence) no_fields)))
      (entry "groups" (arr (group_items capacity groups))
        (entry "priority" (int priority) (ttl_field ttl_ms)))

abbrev pub positive_ttl : Option ℕ → Option ℤ
positive_ttl none = none
positive_ttl (some t) = some (pos (suc t))

abbrev pub stored_ttl : Option ℕ → Option ℕ
stored_ttl none = none
stored_ttl (some t) = some (suc t)

checked_ttl-ok : (ttl : Option ℕ) → checked_ttl (positive_ttl ttl) ≡ ok tt
unfolding checked_ttl positive_int
checked_ttl-ok none = refl
checked_ttl-ok (some t) = refl

abbrev pub reservation : String → String → ℕ → List String → Option ℕ → Reservation
reservation request sequence n groups ttl = record {
  request_id = request;
  sequence_id = sequence;
  groups = map (λ g. (g, suc n)) groups;
  ttl_ms = stored_ttl ttl;
}

validate_message-ok :
    (request sequence g : String) (n : ℕ) (gs : List String) (priority : ℤ) (ttl : Option ℕ)
    → IsText request
    → IsText sequence
    → All IsText (g ∷ gs)
    → NewNames [] (g ∷ gs)
    → validate_reserve_request
        (reserve_message request sequence (pos (suc n)) (g ∷ gs) priority (positive_ttl ttl))
      ≡ ok (reservation request sequence n (g ∷ gs) ttl)
unfolding validate_reserve_request mapping get nonempty_list elements optional_positive positive_int
validate_message-ok request sequence g n gs priority none hr hs texts new =
    rw
      (
        nonempty-ok request "sequence.request_id" hr,
        nonempty-ok sequence "sequence.sequence_id" hs,
        validate_groups-group_items n [] (g ∷ gs) texts new,
      )
      refl
validate_message-ok request sequence g n gs priority (some t) hr hs texts new =
    rw
      (
        nonempty-ok request "sequence.request_id" hr,
        nonempty-ok sequence "sequence.sequence_id" hs,
        validate_groups-group_items n [] (g ∷ gs) texts new,
      )
      refl

-- A reservation made of non-blank names, one group at least and none twice, a positive capacity and no
-- or a positive time to live is let through, and the receiver reads from its message what was asked.
pub make_reserve_request-validate_reserve_request :
    (request sequence g : String) (n : ℕ) (gs : List String) (priority : ℤ) (ttl : Option ℕ)
    → IsText request
    → IsText sequence
    → All IsText (g ∷ gs)
    → NewNames [] (g ∷ gs)
    → (make_reserve_request request sequence (pos (suc n)) (g ∷ gs) priority (positive_ttl ttl)
        ≡ ok (reserve_message request sequence (pos (suc n)) (g ∷ gs) priority (positive_ttl ttl)))
      × (validate_reserve_request
            (reserve_message request sequence (pos (suc n)) (g ∷ gs) priority (positive_ttl ttl))
          ≡ ok (reservation request sequence n (g ∷ gs) ttl))
unfolding make_reserve_request
make_reserve_request-validate_reserve_request request sequence g n gs priority ttl hr hs texts new =
    let read = validate_message-ok request sequence g n gs priority ttl hr hs texts new in
    (
      rw
          (
            nonempty-ok request "request_id" hr,
            nonempty-ok sequence "sequence_id" hs,
            checked_groups-ok n (g ∷ gs) texts,
            checked_ttl-ok ttl,
            read,
          )
          refl,
      read,
    )
