-- ===== src/MockMcu/RemoteCore/Life.antt =====
-- mock_mcu/src/remote_core.cpp: the leases of the remote core over any calls on it.
use remote_bsp.Prelude.{
  ℕ, ◌≤◌, leb, ◌≡◌, refl, sym, subst, ◌==◌, not, ◌&&◌, Bool, true, false, Option, none, some, List,
  [], ◌∷◌, length, any, if◌then◌else◌, Result, ok, err, arith,
}
use remote_bsp.Protocol.MessageType
use remote_bsp.Protocol.Packet.{Packet, protocol_version}
use remote_bsp.Protocol.Resource.Types.{ResourceDescriptor, ResourceContract}
use remote_bsp.MockMcu.Gpio.{MockGpioBsp}
use remote_bsp.MockMcu.Uart.{MockUartBsp}
use remote_bsp.MockMcu.Motion.{MotionExecutor}
use remote_bsp.Protocol.Resource.Leases.{lease_mode_exclusive}
use remote_bsp.MockMcu.RemoteCore.{
  RemoteCore, NodeInfo, Lease, Outcome, refuse, throw, Failure, CoreError,
}
use remote_bsp.MockMcu.RemoteCore.Leases.{
  leases_of, expire_leases, release_session, session_has_exclusive_lease,
}
use remote_bsp.MockMcu.RemoteCore.ResourceHandlers.{new_core}
use remote_bsp.MockMcu.RemoteCore.UartHandlers.{poll_uart_events, poll_bsp}
use remote_bsp.MockMcu.RemoteCore.LeaseHandlers.{is_exclusive}
use remote_bsp.MockMcu.RemoteCore.Handle.{dispatch, conclude, handle}
use remote_bsp.MockMcu.RemoteCore.Sound.{Ensures}
use remote_bsp.MockMcu.RemoteCore.Exclusive.{
  AreCompatible, AllCompatible, has_owner, sweep-AllCompatible, leases_of-AreCompatible,
}
use remote_bsp.MockMcu.RemoteCore.LeaseChanges.{all_compatible→AllCompatible}
use remote_bsp.MockMcu.RemoteCore.Requests.{Good, dispatch-Ensures}

pub expire_leases-AllCompatible :
    (now : ℕ) (core : RemoteCore)
    → AllCompatible core.leases
    → AllCompatible (expire_leases now core).1.leases
unfolding expire_leases
expire_leases-AllCompatible now core h = sweep-AllCompatible (λ l. leb l.expires_at now) core h

release_session-AllCompatible :
    (session_id : ℕ) (core : RemoteCore)
    → AllCompatible core.leases
    → AllCompatible (release_session session_id core).1.leases
unfolding release_session
release_session-AllCompatible session_id core h =
    sweep-AllCompatible (λ l. l.owner_session_id == session_id) core h

conclude-AllCompatible :
    (request : Packet) (core : RemoteCore) (o : Outcome)
    → AllCompatible core.leases
    → Ensures (Good request) o
    → AllCompatible (conclude request core o).1.leases
unfolding conclude
conclude-AllCompatible request core (ok a) h good =
    all_compatible→AllCompatible a.core.leases good.0
conclude-AllCompatible request core (err (refuse status)) h good = h
conclude-AllCompatible request core (err (throw failure)) h good = h

handle-AllCompatible :
    (core : RemoteCore) (request : Packet) (now : ℕ)
    → AllCompatible core.leases
    → AllCompatible (handle core request now).1.leases
unfolding handle
handle-AllCompatible core request now h =
    choose (not (request.header.message_type == MessageType.request))
      (not (request.header.version == protocol_version)) _ _ _ h h
      (conclude-AllCompatible request expired (dispatch expired request now) live
        (dispatch-Ensures expired request now live))
  where
    expired : RemoteCore
    expired = (expire_leases now core).1

    live : AllCompatible expired.leases
    live = expire_leases-AllCompatible now core h

    choose :
        (b c : Bool) (x y z : Result Failure Packet × RemoteCore)
        → AllCompatible x.1.leases
        → AllCompatible y.1.leases
        → AllCompatible z.1.leases
        → AllCompatible (if b then x else (if c then y else z)).1.leases
    choose true c x y z hx hy hz = hx
    choose false true x y z hx hy hz = hy
    choose false false x y z hx hy hz = hz

-- A call on the core from outside.
pub data Call : Type 0 where
  handling : Packet → ℕ → Call
  expiring : ℕ → Call
  releasing : ℕ → Call
  polling : ℕ → Call

abbrev polled_core : RemoteCore → Option (List Packet × RemoteCore) → RemoteCore
polled_core core none = core
polled_core core (some polled) = polled.1

unfoldable pub after_call : RemoteCore → Call → RemoteCore
unfolding handle expire_leases release_session poll_uart_events
after_call core (handling request now) = (handle core request now).1
after_call core (expiring now) = (expire_leases now core).1
after_call core (releasing session_id) = (release_session session_id core).1
after_call core (polling maximum_payload) = polled_core core (poll_uart_events core maximum_payload)

unfoldable pub after_calls : RemoteCore → List Call → RemoteCore
unfolding after_call
after_calls core [] = core
after_calls core (c ∷ calls) = after_calls (after_call core c) calls

poll_bsp-leases :
    (core : RemoteCore) (maximum_payload : ℕ) (bsp : Option MockUartBsp)
    → (poll_bsp core maximum_payload bsp).1.leases ≡ core.leases
unfolding poll_bsp
poll_bsp-leases core maximum_payload none = refl
poll_bsp-leases core maximum_payload (some bsp) = refl

poll-leases :
    (core : RemoteCore) (maximum_payload : ℕ)
    → (polled_core core (poll_uart_events core maximum_payload)).leases ≡ core.leases
unfolding poll_uart_events
poll-leases core maximum_payload =
    ground (arith, poll_bsp-leases core maximum_payload core.uart_bsp)

after_call-AllCompatible :
    (core : RemoteCore) (c : Call)
    → AllCompatible core.leases
    → AllCompatible (after_call core c).leases
unfolding after_call
after_call-AllCompatible core (handling request now) h = handle-AllCompatible core request now h
after_call-AllCompatible core (expiring now) h = expire_leases-AllCompatible now core h
after_call-AllCompatible core (releasing session_id) h =
    release_session-AllCompatible session_id core h
after_call-AllCompatible core (polling maximum_payload) h =
    subst AllCompatible (sym (poll-leases core maximum_payload)) h

after_calls-AllCompatible :
    (core : RemoteCore) (calls : List Call)
    → AllCompatible core.leases
    → AllCompatible (after_calls core calls).leases
unfolding after_calls
after_calls-AllCompatible core [] h = h
after_calls-AllCompatible core (c ∷ calls) h =
    after_calls-AllCompatible (after_call core c) calls (after_call-AllCompatible core c h)

one_owner :
    (entries : List Lease) (owner other : ℕ)
    → length entries ≤ 1
    → any (λ l. (l.owner_session_id == owner) && (l.mode == lease_mode_exclusive)) entries ≡ true
    → has_owner other entries ≡ true
    → owner ≡ other
one_owner [] owner other short a b = cc
one_owner (l ∷ []) owner other short a b = ground (arith, a, b)
one_owner (l ∷ k ∷ entries) owner other short a b = absurd (omega arith)

exclusive_of :
    (entries : List Lease) (owner : ℕ)
    → any (λ l. (l.owner_session_id == owner) && (l.mode == lease_mode_exclusive)) entries ≡ true
    → any is_exclusive entries ≡ true
exclusive_of [] owner h = h
exclusive_of (l ∷ entries) owner h = ground (arith, h, exclusive_of entries owner)

-- The arguments of `new_core`.
pub record Board : Type 0 where
  pub node_info : NodeInfo
  pub capabilities : ℕ
  pub gpio_bsp : Option MockGpioBsp
  pub uart_bsp : Option MockUartBsp
  pub resources : List ResourceDescriptor
  pub contracts : List ResourceContract
  pub motion : Option MotionExecutor

abbrev pub construct : Board → Result CoreError RemoteCore
construct b =
    new_core b.node_info b.capabilities b.gpio_bsp b.uart_bsp b.resources b.contracts b.motion

new_core_leases : (b : Board) (core : RemoteCore) → construct b ≡ ok core → [] ≡ core.leases
unfolding new_core
new_core_leases b core h = ground (arith, h)

-- After any calls on a constructed core, be they requests of any content, expiries, releases of
-- sessions or polls: a session that has an exclusive lease of a resource is the only one that has a
-- lease of it.
pub after_calls-exclusive :
    (board : Board) (core : RemoteCore) (calls : List Call) (resource_id owner other : ℕ)
    → construct board ≡ ok core
    → session_has_exclusive_lease (after_calls core calls) resource_id owner ≡ true
    → has_owner other (leases_of (after_calls core calls) resource_id) ≡ true
    → owner ≡ other
unfolding session_has_exclusive_lease
after_calls-exclusive board core calls resource_id owner other built exclusive held =
    one_owner entries owner other (compatible.1 (exclusive_of entries owner exclusive)) exclusive
      held
  where
    entries : List Lease
    entries = leases_of (after_calls core calls) resource_id

    compatible : AreCompatible entries
    compatible = leases_of-AreCompatible (after_calls core calls) resource_id (
        after_calls-AllCompatible core calls
          (subst AllCompatible (new_core_leases board core built) tt))
