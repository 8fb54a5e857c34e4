-- ===== src/MockMcu/RemoteCore/LeaseHandlers.antt =====
-- mock_mcu/src/remote_core.cpp: the handlers of the commands on leases.
use remote_bsp.Prelude.{
  ℕ, ◌+◌, ◌%◌, ◌^◌, ltb, ◌==◌, not, ◌&&◌, ◌||◌, Bool, true, false, if◌then◌else◌, List, [], ◌∷◌,
  ◌++◌, length, any, find_if, is_empty, ◌>>◌, ◌>>=◌,
}
use remote_bsp.Prelude.Map.{find, assign, erase}
use remote_bsp.Protocol.Packet.{Packet}
use remote_bsp.Protocol.Resource.Types.{decode_resource_id}
use remote_bsp.Protocol.Resource.Leases.{
  ResourceLeaseRequest, ResourceLeaseTokenRequest, lease_mode_exclusive, lease_mode_shared_read,
  decode_resource_lease_request, decode_resource_lease_token_request, encode_resource_lease_info,
}
use remote_bsp.MockMcu.RemoteCore.{
  RemoteCore, Lease, Outcome, resource_failure, respond, respond_with, refuse_if, require,
  catch_with, pass_on, contract_has, find_resource, find_contract, access_lease_supported,
  access_shared_read, all_well, invalid_payload, object_not_found, access_denied,
  unsupported_capability, resource_busy,
}
use remote_bsp.MockMcu.RemoteCore.Leases.{
  minimum_lease_duration_ms, maximum_lease_duration_ms, expiry, leases_of, resource_has_objects,
  release_resource_objects, make_lease_info,
}

-- `next_lease_id_++`, which leaves out 0
unfoldable pub next_lease : ℕ → ℕ
next_lease lease_id = let next = (lease_id + 1) % 2 ^ 64 in if next == 0 then 1 else next

abbrev pub is_exclusive : Lease → Bool
is_exclusive l = l.mode == lease_mode_exclusive

-- Why a request for a lease must wait.
unfoldable pub lease_conflict : RemoteCore → ℕ → ResourceLeaseRequest → Bool
lease_conflict core session_id lease_request =
    let entries = leases_of core lease_request.resource_id in
    let occupied = resource_has_objects core lease_request.resource_id in
    any (λ l. l.owner_session_id == session_id) entries
    || ((lease_request.mode == lease_mode_exclusive) && (not (is_empty entries) || occupied))
    || ((lease_request.mode == lease_mode_shared_read) && (any is_exclusive entries || occupied))

-- The core with a lease behind those of its resource.
unfoldable pub grant_lease : RemoteCore → ℕ → ResourceLeaseRequest → ℕ → RemoteCore
unfolding next_lease
grant_lease core session_id lease_request now =
    let lease : Lease = record {
      lease_id = core.next_lease_id;
      owner_session_id = session_id;
      granted_duration_ms = lease_request.duration_ms;
      mode = lease_request.mode;
      expires_at = expiry now lease_request.duration_ms;
    } in
    record core {
      leases =
          assign lease_request.resource_id
            (leases_of core lease_request.resource_id ++ (lease ∷ [])) core.leases;
      next_lease_id = next_lease core.next_lease_id;
    }

-- The end of `handle_resource_acquire`, by whether the request must wait.
unfoldable pub answer_acquire : RemoteCore → Packet → ResourceLeaseRequest → ℕ → Bool → Outcome
unfolding grant_lease
answer_acquire core request lease_request now true = respond request resource_busy (
    if is_empty (leases_of core lease_request.resource_id)
    then record core { leases = erase lease_request.resource_id core.leases }
    else core)
answer_acquire core request lease_request now false = do
  let granted = grant_lease core request.header.session_id lease_request now
  let info = make_lease_info granted lease_request.resource_id request.header.session_id now
  encoded ← pass_on (encode_resource_lease_info info) resource_failure
  respond_with request encoded granted

unfoldable pub handle_resource_acquire : RemoteCore → Packet → ℕ → Outcome
unfolding lease_conflict answer_acquire
handle_resource_acquire core request now = do
  refuse_if (not (request.header.object_id == 0) || (request.header.session_id == 0))
      invalid_payload
  lease_request ← catch_with (decode_resource_lease_request request.payload) invalid_payload
  refuse_if
      (ltb lease_request.duration_ms minimum_lease_duration_ms
        || ltb maximum_lease_duration_ms lease_request.duration_ms)
      invalid_payload
  resource ← require (find_resource core lease_request.resource_id) object_not_found
  let contract = find_contract core lease_request.resource_id
  refuse_if (not (contract_has contract access_lease_supported)) unsupported_capability
  refuse_if
      ((lease_request.mode == lease_mode_shared_read)
        && not (contract_has contract access_shared_read))
      access_denied
  answer_acquire core request lease_request now
      (lease_conflict core request.header.session_id lease_request)

-- The lease that a token and a session name.
abbrev pub is_token : ℕ → ℕ → Lease → Bool
is_token lease_id session_id l = (l.lease_id == lease_id) && (l.owner_session_id == session_id)

abbrev pub renewed : ℕ → ℕ → Lease → Lease
renewed duration_ms now l = record l {
  granted_duration_ms = duration_ms;
  expires_at = expiry now duration_ms;
}

-- A change of the first element that passes a test, and its removal.
unfoldable pub update_first {ℓ} : {A : Type ℓ} → (A → Bool) → (A → A) → List A → List A
update_first p f [] = []
update_first p f (x ∷ xs) = let rest = update_first p f xs in if p x then f x ∷ xs else x ∷ rest

unfoldable pub erase_first {ℓ} : {A : Type ℓ} → (A → Bool) → List A → List A
erase_first p [] = []
erase_first p (x ∷ xs) = let rest = erase_first p xs in if p x then xs else x ∷ rest

unfoldable pub renew_lease : RemoteCore → ℕ → ResourceLeaseTokenRequest → ℕ → RemoteCore
unfolding update_first
renew_lease core session_id renew now = record core {
  leases =
      assign renew.resource_id
        (update_first (is_token renew.lease_id session_id) (renewed renew.duration_ms now)
          (leases_of core renew.resource_id))
        core.leases;
}

unfoldable pub handle_resource_renew : RemoteCore → Packet → ℕ → Outcome
unfolding renew_lease
handle_resource_renew core request now = do
  refuse_if (not (request.header.object_id == 0) || (request.header.session_id == 0))
      invalid_payload
  renew ← catch_with (decode_resource_lease_token_request request.payload) invalid_payload
  refuse_if
      ((renew.lease_id == 0)
        || ltb renew.duration_ms minimum_lease_duration_ms
        || ltb maximum_lease_duration_ms renew.duration_ms)
      invalid_payload
  resource ← require (find_resource core renew.resource_id) object_not_found
  entries ← require (find renew.resource_id core.leases) access_denied
  lease ←
      require (find_if (is_token renew.lease_id request.header.session_id) entries) access_denied
  let extended = renew_lease core request.header.session_id renew now
  let info = make_lease_info extended renew.resource_id request.header.session_id now
  encoded ← pass_on (encode_resource_lease_info info) resource_failure
  respond_with request encoded extended

-- The core without a lease and the objects of its session.
unfoldable pub drop_lease : RemoteCore → ℕ → ResourceLeaseTokenRequest → RemoteCore
unfolding erase_first
drop_lease core session_id release =
    let kept =
      erase_first (is_token release.lease_id session_id) (leases_of core release.resource_id) in
    record (release_resource_objects release.resource_id session_id core) {
      leases =
          if is_empty kept
          then erase release.resource_id core.leases
          else assign release.resource_id kept core.leases;
    }

unfoldable pub handle_resource_release : RemoteCore → Packet → Outcome
unfolding drop_lease
handle_resource_release core request = do
  refuse_if (not (request.header.object_id == 0) || (request.header.session_id == 0))
      invalid_payload
  release ← catch_with (decode_resource_lease_token_request request.payload) invalid_payload
  refuse_if ((release.lease_id == 0) || not (release.duration_ms == 0)) invalid_payload
  resource ← require (find_resource core release.resource_id) object_not_found
  entries ← require (find release.resource_id core.leases) access_denied
  lease ←
      require (find_if (is_token release.lease_id request.header.session_id) entries) access_denied
  respond request all_well (drop_lease core request.header.session_id release)

unfoldable pub handle_resource_lease_status : RemoteCore → Packet → ℕ → Outcome
handle_resource_lease_status core request now = do
  refuse_if (not (request.header.object_id == 0) || not (length request.payload == 4))
      invalid_payload
  resource_id ← pass_on (decode_resource_id request.payload) resource_failure
  resource ← require (find_resource core resource_id) object_not_found
  refuse_if (not (contract_has (find_contract core resource_id) access_lease_supported))
      unsupported_capability
  let info = make_lease_info core resource_id request.header.session_id now
  encoded ← pass_on (encode_resource_lease_info (record info { lease_id = 0 })) resource_failure
  respond_with request encoded core
