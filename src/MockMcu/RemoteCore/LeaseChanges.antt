-- ===== src/MockMcu/RemoteCore/LeaseChanges.antt =====
-- mock_mcu/src/remote_core.cpp: the leases behind the handlers that change them.
use remote_bsp.Prelude.{
  ℕ, ◌≡◌, refl, ◌∙◌, ◌==◌, leb, not, ◌&&◌, ◌||◌, Bool, true, false, List, [], ◌∷◌, ◌++◌, length,
  length-append, any, is_empty, if◌then◌else◌, ok, err, arith, Result-cases, inl, inr,
}
use remote_bsp.Prelude.Map.{Map, assign, erase}
use remote_bsp.Prelude.Entries.{All-assign, All-erase}
use remote_bsp.Bytes.{Bytes}
use remote_bsp.Protocol.Packet.{Packet}
use remote_bsp.Protocol.Resource.Leases.{
  ResourceLeaseRequest, ResourceLeaseTokenRequest, valid_lease_mode, decode_resource_lease_request,
  decode_resource_lease_token_request,
}
use remote_bsp.MockMcu.RemoteCore.{RemoteCore, Lease, Outcome}
use remote_bsp.MockMcu.RemoteCore.Leases.{leases_of, expiry}
use remote_bsp.MockMcu.RemoteCore.Exclusive.{
  AreCompatible, AllCompatible, has_owner, distinct_owners, any-append, distinct_owners-snoc,
  leases_of-AreCompatible, erase_first-AreCompatible,
}
use remote_bsp.MockMcu.RemoteCore.LeaseHandlers.{
  is_exclusive, lease_conflict, grant_lease, is_token, renewed, update_first, erase_first,
  renew_lease, drop_lease, handle_resource_acquire, handle_resource_renew, handle_resource_release,
  answer_acquire,
}

empty-length {ℓ} : {A : Type ℓ} (xs : List A) → is_empty xs ≡ true → length xs ≡ 0
empty-length [] h = refl
empty-length (x ∷ xs) h = cc

-- A lease behind others, which conflicts with none of them.
snoc-AreCompatible :
    (entries : List Lease) (l : Lease)
    → AreCompatible entries
    → has_owner l.owner_session_id entries ≡ false
    → (is_exclusive l ≡ true → is_empty entries ≡ true)
    → (is_exclusive l ≡ false → any is_exclusive entries ≡ false)
    → AreCompatible (entries ++ (l ∷ []))
snoc-AreCompatible entries l h fresh exclusive shared = (
  distinct_owners-snoc entries l h.0 fresh,
  λ e. ground (
    arith,
    exclusive,
    shared,
    any-append is_exclusive entries (l ∷ []),
    length-append entries (l ∷ []),
    empty-length entries,
  ),
)

any-renewed :
    (q p : Lease → Bool) (duration_ms now : ℕ)
    (same : (l : Lease) → q (renewed duration_ms now l) ≡ q l) (entries : List Lease)
    → any q (update_first p (renewed duration_ms now) entries) ≡ any q entries
unfolding update_first
any-renewed q p duration_ms now same [] = refl
any-renewed q p duration_ms now same (l ∷ entries) =
    ground (arith, same l, any-renewed q p duration_ms now same entries)

length-update_first {ℓ} :
    {A : Type ℓ} (p : A → Bool) (f : A → A) (xs : List A) → length (update_first p f xs) ≡ length xs
unfolding update_first
length-update_first p f [] = refl
length-update_first p f (x ∷ xs) = ground (arith, length-update_first p f xs)

distinct_owners-renewed :
    (p : Lease → Bool) (duration_ms now : ℕ) (entries : List Lease)
    → distinct_owners (update_first p (renewed duration_ms now) entries) ≡ distinct_owners entries
unfolding update_first
distinct_owners-renewed p duration_ms now [] = refl
distinct_owners-renewed p duration_ms now (l ∷ entries) = ground (
  arith,
  distinct_owners-renewed p duration_ms now entries,
  any-renewed (λ k. k.owner_session_id == l.owner_session_id) p duration_ms now (λ k. refl) entries,
)

renewed-AreCompatible :
    (p : Lease → Bool) (duration_ms now : ℕ) (entries : List Lease)
    → AreCompatible entries
    → AreCompatible (update_first p (renewed duration_ms now) entries)
renewed-AreCompatible p duration_ms now entries h = (
  distinct_owners-renewed p duration_ms now entries ∙ h.0,
  λ e. ground (
    arith,
    h.1,
    length-update_first p (renewed duration_ms now) entries,
    any-renewed is_exclusive p duration_ms now (λ k. refl) entries,
  ),
)

abbrev compatible : List Lease → Bool
compatible entries =
    distinct_owners entries && (not (any is_exclusive entries) || leb (length entries) 1)

-- `AllCompatible` as a test.
unfoldable pub all_compatible : Map (List Lease) → Bool
all_compatible [] = true
all_compatible ((resource_id, entries) ∷ leases) = compatible entries && all_compatible leases

pub AllCompatible→all_compatible :
    (leases : Map (List Lease)) → AllCompatible leases → all_compatible leases ≡ true
unfolding all_compatible
AllCompatible→all_compatible [] h = refl
AllCompatible→all_compatible ((resource_id, entries) ∷ leases) h =
    ground (arith, h.0.0, h.0.1, AllCompatible→all_compatible leases h.1)

pub all_compatible→AllCompatible :
    (leases : Map (List Lease)) → all_compatible leases ≡ true → AllCompatible leases
unfolding all_compatible
all_compatible→AllCompatible [] h = tt
all_compatible→AllCompatible ((resource_id, entries) ∷ leases) h =
    ((ground arith, λ e. ground arith), all_compatible→AllCompatible leases (ground arith))

renew_lease-AllCompatible :
    (core : RemoteCore) (session_id : ℕ) (renew : ResourceLeaseTokenRequest) (now : ℕ)
    → AllCompatible core.leases
    → AllCompatible (renew_lease core session_id renew now).leases
unfolding renew_lease
renew_lease-AllCompatible core session_id renew now h =
    All-assign (λ e. AreCompatible e.1) renew.resource_id
      (update_first (is_token renew.lease_id session_id) (renewed renew.duration_ms now)
        (leases_of core renew.resource_id))
      core.leases
      (renewed-AreCompatible (is_token renew.lease_id session_id) renew.duration_ms now
        (leases_of core renew.resource_id) (leases_of-AreCompatible core renew.resource_id h))
      h

drop_lease-AllCompatible :
    (core : RemoteCore) (session_id : ℕ) (release : ResourceLeaseTokenRequest)
    → AllCompatible core.leases
    → AllCompatible (drop_lease core session_id release).leases
unfolding drop_lease
drop_lease-AllCompatible core session_id release h = choose (is_empty left)
  where
    left : List Lease
    left = erase_first (is_token release.lease_id session_id) (leases_of core release.resource_id)

    choose :
        (b : Bool)
        → AllCompatible (
            if b
            then erase release.resource_id core.leases
            else assign release.resource_id left core.leases)
    choose true = All-erase (λ e. AreCompatible e.1) release.resource_id core.leases h
    choose false =
        All-assign (λ e. AreCompatible e.1) release.resource_id left core.leases
          (erase_first-AreCompatible (is_token release.lease_id session_id)
            (leases_of core release.resource_id)
            (leases_of-AreCompatible core release.resource_id h))
          h

-- A lease that is granted conflicts with none of its resource.
grant_lease-AllCompatible :
    (core : RemoteCore) (session_id : ℕ) (r : ResourceLeaseRequest) (now : ℕ)
    → valid_lease_mode r.mode false ≡ true
    → lease_conflict core session_id r ≡ false
    → AllCompatible core.leases
    → AllCompatible (grant_lease core session_id r now).leases
unfolding grant_lease lease_conflict valid_lease_mode
grant_lease-AllCompatible core session_id r now valid free h =
    All-assign (λ e. AreCompatible e.1) r.resource_id (entries ++ (lease ∷ [])) core.leases
      (snoc-AreCompatible entries lease (leases_of-AreCompatible core r.resource_id h)
        (ground arith) (λ e. ground arith) (λ e. ground arith))
      h
  where
    entries : List Lease
    entries = leases_of core r.resource_id

    lease : Lease
    lease = record {
      lease_id = core.next_lease_id;
      owner_session_id = session_id;
      granted_duration_ms = r.duration_ms;
      mode = r.mode;
      expires_at = expiry now r.duration_ms;
    }

decode-valid_mode :
    (payload : Bytes) (r : ResourceLeaseRequest)
    → decode_resource_lease_request payload ≡ ok r
    → valid_lease_mode r.mode false ≡ true
unfolding decode_resource_lease_request
decode-valid_mode payload r h = ground (arith, h)

-- The outcome of a handler, as a test of its leases.
abbrev pub ends_compatible : Outcome → Bool
ends_compatible (ok a) = all_compatible a.core.leases
ends_compatible (err e) = true

pub renew-compatible :
    (core : RemoteCore) (request : Packet) (now : ℕ)
    → AllCompatible core.leases
    → ends_compatible (handle_resource_renew core request now) ≡ true
unfolding handle_resource_renew
renew-compatible core request now h =
    elim (Result-cases (decode_resource_lease_token_request request.payload)) [
      | inl (e, failed) ↦ ground (arith, failed)
      | inr (renew, decoded) ↦ ground (
        arith,
        decoded,
        AllCompatible→all_compatible (renew_lease core request.header.session_id renew now).leases
            (renew_lease-AllCompatible core request.header.session_id renew now h),
      )
    ]

pub release-compatible :
    (core : RemoteCore) (request : Packet)
    → AllCompatible core.leases
    → ends_compatible (handle_resource_release core request) ≡ true
unfolding handle_resource_release
release-compatible core request h =
    elim (Result-cases (decode_resource_lease_token_request request.payload)) [
      | inl (e, failed) ↦ ground (arith, failed)
      | inr (release, decoded) ↦ ground (
        arith,
        decoded,
        AllCompatible→all_compatible (drop_lease core request.header.session_id release).leases
            (drop_lease-AllCompatible core request.header.session_id release h),
      )
    ]

answer_acquire-compatible :
    (core : RemoteCore) (request : Packet) (r : ResourceLeaseRequest) (now : ℕ) (conflict : Bool)
    → lease_conflict core request.header.session_id r ≡ conflict
    → valid_lease_mode r.mode false ≡ true
    → AllCompatible core.leases
    → ends_compatible (answer_acquire core request r now conflict) ≡ true
unfolding answer_acquire
answer_acquire-compatible core request r now true e valid h = ground (
  arith,
  AllCompatible→all_compatible core.leases h,
  AllCompatible→all_compatible (erase r.resource_id core.leases)
      (All-erase (λ e. AreCompatible e.1) r.resource_id core.leases h),
)
answer_acquire-compatible core request r now false e valid h = ground (
  arith,
  AllCompatible→all_compatible (grant_lease core request.header.session_id r now).leases
      (grant_lease-AllCompatible core request.header.session_id r now valid e h),
)

pub acquire-compatible :
    (core : RemoteCore) (request : Packet) (now : ℕ)
    → AllCompatible core.leases
    → ends_compatible (handle_resource_acquire core request now) ≡ true
unfolding handle_resource_acquire lease_conflict
acquire-compatible core request now h =
    elim (Result-cases (decode_resource_lease_request request.payload)) [
      | inl (e, failed) ↦ ground (arith, failed)
      | inr (r, decoded) ↦ ground (
        arith,
        decoded,
        answer_acquire-compatible core request r now
            (lease_conflict core request.header.session_id r) refl
            (decode-valid_mode request.payload r decoded) h,
      )
    ]
