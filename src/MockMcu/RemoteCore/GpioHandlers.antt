-- ===== src/MockMcu/RemoteCore/GpioHandlers.antt =====
-- mock_mcu/src/remote_core.cpp: the handlers of the commands on pins.
use remote_bsp.Prelude.{
  ℕ, ◌+◌, ◌-◌, ◌%◌, ◌^◌, ltb, leb, ◌==◌, not, ◌&&◌, ◌||◌, Bool, Option, none, some, if◌then◌else◌,
  [], ◌∷◌, length, any, is_empty, Result, ok, ◌>>◌, ◌>>=◌,
}
use remote_bsp.Prelude.Map.{find, emplace}
use remote_bsp.Bytes.{byte_at, read_u16}
use remote_bsp.Protocol.Packet.{Packet}
use remote_bsp.Protocol.Resource.Types.{ResourceDescriptor, resource_type_gpio}
use remote_bsp.MockMcu.Gpio
use remote_bsp.MockMcu.Gpio.{MockGpioBsp, GpioDirection, input, output}
use remote_bsp.MockMcu.RemoteCore.{
  RemoteCore, Outcome, Exit, gpio_failure, respond, respond_with, refuse_if, require, pass_on,
  has_bit, contract_has, find_instance, find_contract, access_lease_required, capability_gpio,
  all_well, invalid_payload, object_not_found, access_denied, resource_exhausted,
  unsupported_capability, resource_busy,
}
use remote_bsp.MockMcu.RemoteCore.Leases.{has_entry, holds, is_output, session_has_exclusive_lease}

-- `!gpio_bsp_ || (capabilities_ & mask) == 0` is refused.
abbrev pub require_bsp {ℓ} : {B : Type ℓ} → RemoteCore → Option B → ℕ → Result Exit B
require_bsp core bsp mask = do
  b ← require bsp unsupported_capability
  refuse_if (not (has_bit core.capabilities mask)) unsupported_capability
  ok b

-- Whether a session may not make an object on a resource: a lease is required or there is one, and
-- the session has no exclusive one.
unfoldable pub needs_lease : RemoteCore → ℕ → ℕ → Bool
needs_lease core resource_id session_id =
    (contract_has (find_contract core resource_id) access_lease_required
      || has_entry (find resource_id core.leases))
    && not (session_has_exclusive_lease core resource_id session_id)

-- The resource id of a new object, and the session that owns it, 0 for none.
unfoldable pub object_owner : RemoteCore → Option ResourceDescriptor → ℕ → Result Exit (ℕ × ℕ)
unfolding needs_lease
object_owner core none session_id = ok (0, 0)
object_owner core (some resource) session_id = do
  refuse_if (needs_lease core resource.resource_id session_id) access_denied
  ok (
    resource.resource_id,
    if session_has_exclusive_lease core resource.resource_id session_id then session_id else 0,
  )

abbrev pub to_direction : ℕ → GpioDirection
to_direction value = if value == 0 then input else output

-- `next_object_id_++`
abbrev pub next_object : ℕ → ℕ
next_object object_id = (object_id + 1) % 2 ^ 32

unfoldable pub create_pin :
    RemoteCore → Packet → MockGpioBsp → ℕ × ℕ → ℕ → GpioDirection → Bool → Outcome
create_pin core request bsp (resource_id, owner_session_id) pin direction initial_value =
    ok (record {
      status = all_well;
      object_id = core.next_object_id;
      body = [];
      core = record core {
        gpio_bsp = some (Gpio.configure bsp pin direction initial_value);
        next_object_id = next_object core.next_object_id;
        gpio_objects =
            emplace core.next_object_id
              (record {
                pin = pin;
                direction = direction;
                resource_id = resource_id;
                owner_session_id = owner_session_id;
              })
              core.gpio_objects;
      };
    })

unfoldable pub handle_gpio_create : RemoteCore → Packet → Outcome
unfolding object_owner create_pin
handle_gpio_create core request = do
  bsp ← require_bsp core core.gpio_bsp capability_gpio
  refuse_if
      (not (request.header.object_id == 0)
        || not (length request.payload == 4)
        || ltb 1 (byte_at request.payload 2)
        || ltb 1 (byte_at request.payload 3))
      invalid_payload
  refuse_if ((core.next_object_id == 0) || leb (0xFFFFFFFF - 1) (length core.gpio_objects))
      resource_exhausted
  let pin = read_u16 request.payload
  let resource = find_instance core resource_type_gpio pin
  refuse_if
      (any (λ r. r.resource_type == resource_type_gpio) core.resources && not (has_entry resource))
      object_not_found
  owner ← object_owner core resource request.header.session_id
  refuse_if (holds (λ o. o.pin == pin) core.gpio_objects) resource_busy
  create_pin core request bsp owner pin (to_direction (byte_at request.payload 2))
      (not (byte_at request.payload 3 == 0))

-- `owner_session_id != 0 && owner_session_id != request.header.session_id`
abbrev pub is_foreign : ℕ → ℕ → Bool
is_foreign owner_session_id session_id =
    not (owner_session_id == 0) && not (owner_session_id == session_id)

unfoldable pub handle_gpio_read : RemoteCore → Packet → Outcome
handle_gpio_read core request = do
  bsp ← require_bsp core core.gpio_bsp capability_gpio
  refuse_if (not (is_empty request.payload) || (request.header.object_id == 0)) invalid_payload
  found ← require (find request.header.object_id core.gpio_objects) object_not_found
  refuse_if (is_foreign found.owner_session_id request.header.session_id) access_denied
  level ← pass_on (Gpio.read bsp found.pin).0 gpio_failure
  respond_with request ((if level then 1 else 0) ∷ [])
      (record core { gpio_bsp = some (Gpio.read bsp found.pin).1 })

unfoldable pub handle_gpio_write : RemoteCore → Packet → Outcome
handle_gpio_write core request = do
  bsp ← require_bsp core core.gpio_bsp capability_gpio
  refuse_if
      (not (length request.payload == 1)
        || ltb 1 (byte_at request.payload 0)
        || (request.header.object_id == 0))
      invalid_payload
  found ← require (find request.header.object_id core.gpio_objects) object_not_found
  refuse_if (is_foreign found.owner_session_id request.header.session_id) access_denied
  refuse_if (not (is_output found.direction)) access_denied
  let level = not (byte_at request.payload 0 == 0)
  written ← pass_on (Gpio.write bsp found.pin level).0 gpio_failure
  respond request all_well (record core { gpio_bsp = some (Gpio.write bsp found.pin level).1 })
