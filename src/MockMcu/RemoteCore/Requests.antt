-- ===== src/MockMcu/RemoteCore/Requests.antt =====
-- mock_mcu/src/remote_core.cpp: the leases and the object id behind the dispatch of a request.
use remote_bsp.Prelude.{
  ℕ, ◌≡◌, refl, ap, ◌∙◌, ◌==◌, Bool, true, false, List, [], ◌∷◌, All, if◌then◌else◌, ok, err, arith,
}
use remote_bsp.Protocol.Command
use remote_bsp.Protocol.Packet.{Packet}
use remote_bsp.Toolbusd.RequestManager.{creates_object}
use remote_bsp.MockMcu.RemoteCore.{RemoteCore, Answer, Outcome}
use remote_bsp.MockMcu.RemoteCore.ResourceHandlers.{
  handle_get_info, handle_get_capability, handle_ping, handle_bootloader_enter,
  handle_resource_enum, handle_resource_describe, handle_resource_status, handle_resource_reset,
  handle_resource_contract,
}
use remote_bsp.MockMcu.RemoteCore.LeaseHandlers.{
  handle_resource_acquire, handle_resource_renew, handle_resource_release,
  handle_resource_lease_status,
}
use remote_bsp.MockMcu.RemoteCore.GpioHandlers.{
  handle_gpio_create, handle_gpio_read, handle_gpio_write,
}
use remote_bsp.MockMcu.RemoteCore.UartHandlers.{
  handle_uart_create, handle_uart_read, handle_uart_write,
}
use remote_bsp.MockMcu.RemoteCore.MotionHandlers.{
  handle_motion_enqueue, handle_motion_status, handle_motion_abort, handle_motion_clear_fault,
}
use remote_bsp.MockMcu.RemoteCore.Handle.{handlers, select, dispatch}
use remote_bsp.MockMcu.RemoteCore.Sound.{
  Ensures, SameObject, SameLeases, Same, creates, Creates, get_info-Same, get_capability-Same,
  ping-Same, bootloader_enter-Same, resource_enum-Same, resource_describe-Same,
  resource_status-Same, resource_reset-Same, resource_contract-Same, gpio_read-Same,
  gpio_write-Same, uart_read-Same, uart_write-Same, motion_enqueue-Same, motion_status-Same,
  motion_abort-Same, motion_clear_fault-Same, gpio_create-Creates, uart_create-Creates,
  resource_acquire-SameObject, resource_renew-SameObject, resource_release-SameObject,
  resource_lease_status-Same,
}
use remote_bsp.MockMcu.RemoteCore.Exclusive.{AllCompatible}
use remote_bsp.MockMcu.RemoteCore.LeaseChanges.{
  ends_compatible, all_compatible, AllCompatible→all_compatible, acquire-compatible,
  renew-compatible, release-compatible,
}

-- The object id that an answer to a request has.
abbrev pub fits : Packet → Answer → Bool
fits request a =
    if creates_object request.header
    then creates request a
    else a.object_id == request.header.object_id

-- Its leases are compatible.
abbrev pub Compatible : Answer → Type 0
Compatible a = all_compatible a.core.leases ≡ true

abbrev pub Good : Packet → Answer → Type 0
Good request a = Compatible a × (fits request a ≡ true)

abbrev Entry : Packet → ℕ × Outcome → Type 0
Entry request (c, o) = (c == request.header.command) ≡ true → Ensures (Good request) o

SameObject-fits :
    (request : Packet) (a : Answer) (c : ℕ)
    → (c == Command.gpio_create) ≡ false
    → (c == Command.uart_create) ≡ false
    → (c == request.header.command) ≡ true
    → SameObject request a
    → fits request a ≡ true
SameObject-fits request a c g u e h = ground (arith, g, u, e, h)

select-Ensures :
    (request : Packet) (cases : List (ℕ × Outcome))
    → All (Entry request) cases
    → Ensures (Good request) (select request.header.command cases)
unfolding select
select-Ensures request [] h = refl
select-Ensures request ((c, o) ∷ cases) h =
    choose o (select request.header.command cases) (c == request.header.command) h.0
      (select-Ensures request cases h.1)
  where
    choose :
        (o rest : Outcome) (b : Bool)
        → (b ≡ true → Ensures (Good request) o)
        → Ensures (Good request) rest
        → Ensures (Good request) (if b then o else rest)
    choose o rest true x y = x refl
    choose o rest false x y = y

module _ (core : RemoteCore) (request : Packet) (now : ℕ) (h : AllCompatible core.leases) where
  SameLeases-Compatible : (a : Answer) → SameLeases core a → Compatible a
  SameLeases-Compatible a e = ap all_compatible e ∙ AllCompatible→all_compatible core.leases h

  plain :
      (c : ℕ) (o : Outcome)
      → (c == Command.gpio_create) ≡ false
      → (c == Command.uart_create) ≡ false
      → Ensures (Same core request) o
      → Entry request (c, o)
  plain c (ok a) g u s e = (SameLeases-Compatible a s.0, SameObject-fits request a c g u e s.1)
  plain c (err x) g u s e = s

  creating :
      (c : ℕ) (o : Outcome)
      → ((c == request.header.command) ≡ true → creates_object request.header ≡ true)
      → Ensures (Creates core request) o
      → Entry request (c, o)
  creating c (ok a) g s e = (SameLeases-Compatible a s.0, ground (arith, g e, s.1))
  creating c (err x) g s e = s

  leasing :
      (c : ℕ) (o : Outcome)
      → (c == Command.gpio_create) ≡ false
      → (c == Command.uart_create) ≡ false
      → Ensures (SameObject request) o
      → ends_compatible o ≡ true
      → Entry request (c, o)
  leasing c (ok a) g u s v e = (v, SameObject-fits request a c g u e s)
  leasing c (err x) g u s v e = s

  entries : All (Entry request) (handlers core request now)
  entries = (
    plain Command.get_info (handle_get_info core request) refl refl (get_info-Same core request),
    (
      plain Command.get_capability (handle_get_capability core request) refl refl
          (get_capability-Same core request),
      (
        plain Command.ping (handle_ping core request) refl refl (ping-Same core request),
        (
          plain Command.bootloader_enter (handle_bootloader_enter core request) refl refl
              (bootloader_enter-Same core request),
          (
            plain Command.bootloader_enter_usb (handle_bootloader_enter core request) refl refl
                (bootloader_enter-Same core request),
            (
              plain Command.resource_enum (handle_resource_enum core request) refl refl
                  (resource_enum-Same core request),
              (
                plain Command.resource_describe (handle_resource_describe core request) refl refl
                    (resource_describe-Same core request),
                (
                  plain Command.resource_status (handle_resource_status core request) refl refl
                      (resource_status-Same core request),
                  (
                    plain Command.resource_reset (handle_resource_reset core request) refl refl
                        (resource_reset-Same core request),
                    (
                      plain Command.resource_contract (handle_resource_contract core request) refl
                          refl (resource_contract-Same core request),
                      (
                        leasing Command.resource_acquire (handle_resource_acquire core request now)
                            refl refl (resource_acquire-SameObject core request now)
                            (acquire-compatible core request now h),
                        (
                          leasing Command.resource_renew (handle_resource_renew core request now)
                              refl refl (resource_renew-SameObject core request now)
                              (renew-compatible core request now h),
                          (
                            leasing Command.resource_release (handle_resource_release core request)
                                refl refl (resource_release-SameObject core request)
                                (release-compatible core request h),
                            (
                              plain Command.resource_lease_status
                                  (handle_resource_lease_status core request now) refl refl
                                  (resource_lease_status-Same core request now),
                              (
                                creating Command.gpio_create (handle_gpio_create core request)
                                    (λ e. ground (arith, e)) (gpio_create-Creates core request),
                                (
                                  plain Command.gpio_read (handle_gpio_read core request) refl refl
                                      (gpio_read-Same core request),
                                  (
                                    plain Command.gpio_write (handle_gpio_write core request) refl
                                        refl (gpio_write-Same core request),
                                    (
                                      creating Command.uart_create (handle_uart_create core request)
                                          (λ e. ground (arith, e))
                                          (uart_create-Creates core request),
                                      (
                                        plain Command.uart_read (handle_uart_read core request) refl
                                            refl (uart_read-Same core request),
                                        (
                                          plain Command.uart_write (handle_uart_write core request)
                                              refl refl (uart_write-Same core request),
                                          (
                                            plain Command.motion_enqueue
                                                (handle_motion_enqueue core request) refl refl
                                                (motion_enqueue-Same core request),
                                            (
                                              plain Command.motion_status
                                                  (handle_motion_status core request) refl refl
                                                  (motion_status-Same core request),
                                              (
                                                plain Command.motion_abort
                                                    (handle_motion_abort core request) refl refl
                                                    (motion_abort-Same core request),
                                                (
                                                  plain Command.motion_clear_fault
                                                      (handle_motion_clear_fault core request) refl
                                                      refl (motion_clear_fault-Same core request),
                                                  tt,
                                                ),
                                              ),
                                            ),
                                          ),
                                        ),
                                      ),
                                    ),
                                  ),
                                ),
                              ),
                            ),
                          ),
                        ),
                      ),
                    ),
                  ),
                ),
              ),
            ),
          ),
        ),
      ),
    ),
  )

  pub dispatch-Ensures : Ensures (Good request) (dispatch core request now)
  unfolding dispatch
  dispatch-Ensures = select-Ensures request (handlers core request now) entries
