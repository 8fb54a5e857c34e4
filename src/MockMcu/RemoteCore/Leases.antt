-- ===== src/MockMcu/RemoteCore/Leases.antt =====
-- mock_mcu/src/remote_core.cpp: the leases of resources, and the objects that end with them. The
-- simulated ports report no error to these paths, which would drop it.
use remote_bsp.Prelude.{
  ℕ, ◌+◌, ◌-◌, ◌*◌, ◌/◌, min, ltb, leb, ◌==◌, not, ◌&&◌, ◌||◌, Bool, true, false, Option, none,
  some, if◌then◌else◌, List, [], ◌∷◌, length, any, find_if, is_empty,
}
use remote_bsp.Prelude.Map.{Map, find, keep_if}
use remote_bsp.Protocol.Resource.Types.{ResourceDescriptor, resource_type_stepgen_axis}
use remote_bsp.Protocol.Resource.Leases.{ResourceLeaseInfo, lease_mode_none, lease_mode_exclusive}
use remote_bsp.MockMcu.Gpio
use remote_bsp.MockMcu.Gpio.{MockGpioBsp, GpioDirection, input, output}
use remote_bsp.MockMcu.Uart
use remote_bsp.MockMcu.Uart.{MockUartBsp}
use remote_bsp.MockMcu.Motion.{MotionExecutor, MotionState, idle, armed, running, faulted, aborted}
use remote_bsp.MockMcu.Motion.Executor.{abort}
use remote_bsp.MockMcu.RemoteCore.{RemoteCore, Lease, GpioObject, UartObject, find_resource}

abbrev pub minimum_lease_duration_ms : ℕ
minimum_lease_duration_ms = 100

abbrev pub maximum_lease_duration_ms : ℕ
maximum_lease_duration_ms = 60000

abbrev pub nanoseconds_per_millisecond : ℕ
nanoseconds_per_millisecond = 1000000

-- `now + std::chrono::milliseconds(duration_ms)`
abbrev pub expiry : ℕ → ℕ → ℕ
expiry now duration_ms = now + duration_ms * nanoseconds_per_millisecond

-- `leases_[resource_id]`, and the leases of a resource that has no entry
abbrev pub entries_of : Option (List Lease) → List Lease
entries_of none = []
entries_of (some entries) = entries

unfoldable pub leases_of : RemoteCore → ℕ → List Lease
leases_of core resource_id = entries_of (find resource_id core.leases)

abbrev pub has_entry {ℓ} : {A : Type ℓ} → Option A → Bool
has_entry none = false
has_entry (some a) = true

-- Whether an object of the map stands on a resource.
abbrev pub holds {ℓ} : {O : Type ℓ} → (O → Bool) → Map O → Bool
holds p objects = any (λ e. p e.1) objects

unfoldable pub resource_has_objects : RemoteCore → ℕ → Bool
resource_has_objects core resource_id =
    holds (λ o. o.resource_id == resource_id) core.gpio_objects
    || holds (λ o. o.resource_id == resource_id) core.uart_objects

unfoldable pub session_has_exclusive_lease : RemoteCore → ℕ → ℕ → Bool
unfolding leases_of
session_has_exclusive_lease core resource_id session_id =
    any (λ l. (l.owner_session_id == session_id) && (l.mode == lease_mode_exclusive))
      (leases_of core resource_id)

unfoldable pub resource_access_allowed : RemoteCore → ℕ → ℕ → Bool
unfolding leases_of
resource_access_allowed core resource_id session_id =
    is_empty (leases_of core resource_id)
    || any (λ l. l.owner_session_id == session_id) (leases_of core resource_id)

abbrev pub is_moving : MotionState → Bool
is_moving armed = true
is_moving running = true
is_moving idle = false
is_moving faulted = false

-- The motion executor behind the release of a resource.
unfoldable pub release_motion :
    Option ResourceDescriptor → Option MotionExecutor → Option MotionExecutor
release_motion none motion = motion
release_motion (some resource) none = none
release_motion (some resource) (some motion) =
    if (resource.resource_type == resource_type_stepgen_axis) && is_moving motion.state
    then some (abort motion motion.now_ns aborted).1
    else some motion

abbrev pub is_output : GpioDirection → Bool
is_output output = true
is_output input = false

abbrev pub owns_pin : ℕ → ℕ → GpioObject → Bool
owns_pin resource_id session_id o =
    (o.resource_id == resource_id) && (o.owner_session_id == session_id)

abbrev pub owns_port : ℕ → ℕ → UartObject → Bool
owns_port resource_id session_id o =
    (o.resource_id == resource_id) && (o.owner_session_id == session_id)

-- The pins behind the loop that writes `false` to the outputs of the released objects.
unfoldable pub release_pins : ℕ → ℕ → Map GpioObject → MockGpioBsp → MockGpioBsp
release_pins resource_id session_id [] bsp = bsp
release_pins resource_id session_id ((object_id, o) ∷ objects) bsp =
    release_pins resource_id session_id objects (
      if owns_pin resource_id session_id o && is_output o.direction
      then (Gpio.write bsp o.pin false).1
      else bsp)

-- The ports behind the loop that resets those of the released objects.
unfoldable pub release_ports : ℕ → ℕ → Map UartObject → MockUartBsp → MockUartBsp
release_ports resource_id session_id [] bsp = bsp
release_ports resource_id session_id ((object_id, o) ∷ objects) bsp =
    release_ports resource_id session_id objects
      (if owns_port resource_id session_id o then (Uart.reset bsp o.port).1 else bsp)

abbrev pub on_bsp {ℓ} : {B : Type ℓ} → (B → B) → Option B → Option B
on_bsp f none = none
on_bsp f (some bsp) = some (f bsp)

unfoldable pub release_resource_objects : ℕ → ℕ → RemoteCore → RemoteCore
unfolding release_motion release_pins release_ports
release_resource_objects resource_id owner_session_id core = record core {
  motion = release_motion (find_resource core resource_id) core.motion;
  gpio_bsp = on_bsp (release_pins resource_id owner_session_id core.gpio_objects) core.gpio_bsp;
  uart_bsp = on_bsp (release_ports resource_id owner_session_id core.uart_objects) core.uart_bsp;
  gpio_objects = keep_if (λ o. not (owns_pin resource_id owner_session_id o)) core.gpio_objects;
  uart_objects = keep_if (λ o. not (owns_port resource_id owner_session_id o)) core.uart_objects;
}

-- The loop over the leases of one resource that `expire_leases` and `release_session` share: the
-- leases which stay, how many went, and the core without the objects of those.
unfoldable pub sweep_entries :
    (Lease → Bool) → ℕ → List Lease → RemoteCore → List Lease × ℕ × RemoteCore
unfolding release_resource_objects
sweep_entries gone resource_id [] core = ([], 0, core)
sweep_entries gone resource_id (l ∷ entries) core =
    let released =
      if gone l then release_resource_objects resource_id l.owner_session_id core else core in
    let (kept, count, swept) = sweep_entries gone resource_id entries released in
    if gone l then (kept, count + 1, swept) else (l ∷ kept, count, swept)

-- The loop over the resources, which erases one that has no leases left.
unfoldable pub sweep_leases :
    (Lease → Bool) → Map (List Lease) → RemoteCore → Map (List Lease) × ℕ × RemoteCore
unfolding sweep_entries
sweep_leases gone [] core = ([], 0, core)
sweep_leases gone ((resource_id, entries) ∷ leases) core =
    let (kept, count, swept) = sweep_entries gone resource_id entries core in
    let (others, later, final) = sweep_leases gone leases swept in
    ((if is_empty kept then others else (resource_id, kept) ∷ others), count + later, final)

unfoldable pub sweep : (Lease → Bool) → RemoteCore → ℕ × RemoteCore
unfolding sweep_leases
sweep gone core =
    let (leases, count, swept) = sweep_leases gone core.leases core in
    (count, record swept { leases = leases })

unfoldable pub expire_leases : ℕ → RemoteCore → ℕ × RemoteCore
unfolding sweep
expire_leases now core = sweep (λ l. leb l.expires_at now) core

unfoldable pub release_session : ℕ → RemoteCore → ℕ × RemoteCore
unfolding sweep
release_session session_id core = sweep (λ l. l.owner_session_id == session_id) core

abbrev pub no_lease_info : ℕ → ResourceLeaseInfo
no_lease_info resource_id = record {
  resource_id = resource_id;
  lease_id = 0;
  owner_session_id = 0;
  granted_duration_ms = 0;
  remaining_ms = 0;
  mode = lease_mode_none;
  active_lease_count = 0;
}

abbrev pub remaining_ms : Lease → ℕ → ℕ
remaining_ms l now =
    if ltb now l.expires_at
    then min ((l.expires_at - now) / nanoseconds_per_millisecond) 0xFFFFFFFF
    else 0

-- The lease that an information is about: the requester's, or the first with its id kept back.
unfoldable pub lease_info : ℕ → ℕ → Lease → ℕ → ℕ → ResourceLeaseInfo
lease_info resource_id lease_id selected count now = record {
  resource_id = resource_id;
  lease_id = lease_id;
  owner_session_id = selected.owner_session_id;
  granted_duration_ms = selected.granted_duration_ms;
  remaining_ms = remaining_ms selected now;
  mode = selected.mode;
  active_lease_count = min count 0xFFFF;
}

unfoldable pub select_lease_info : ℕ → List Lease → Option Lease → ℕ → ResourceLeaseInfo
unfolding lease_info
select_lease_info resource_id [] owned now = no_lease_info resource_id
select_lease_info resource_id (l ∷ entries) (some selected) now =
    lease_info resource_id selected.lease_id selected (length (l ∷ entries)) now
select_lease_info resource_id (l ∷ entries) none now =
    lease_info resource_id 0 l (length (l ∷ entries)) now

unfoldable pub make_lease_info : RemoteCore → ℕ → ℕ → ℕ → ResourceLeaseInfo
unfolding leases_of select_lease_info
make_lease_info core resource_id requester_session_id now =
    let entries = leases_of core resource_id in
    select_lease_info resource_id entries
      (find_if (λ l. l.owner_session_id == requester_session_id) entries) now
