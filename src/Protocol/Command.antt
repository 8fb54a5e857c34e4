-- ===== src/Protocol/Command.antt =====
-- `enum class Command` of protocol/include/remotebsp/protocol/packet.hpp: the commands.
use remote_bsp.Prelude.{ℕ}

abbrev pub discovery_request : ℕ
discovery_request = 0x0001

abbrev pub discovery_response : ℕ
discovery_response = 0x0002

abbrev pub node_assign : ℕ
node_assign = 0x0003

abbrev pub heartbeat : ℕ
heartbeat = 0x0004

abbrev pub get_info : ℕ
get_info = 0x0010

abbrev pub get_capability : ℕ
get_capability = 0x0011

abbrev pub ping : ℕ
ping = 0x0012

abbrev pub bootloader_enter : ℕ
bootloader_enter = 0x0013

abbrev pub bootloader_enter_usb : ℕ
bootloader_enter_usb = 0x0014

abbrev pub resource_enum : ℕ
resource_enum = 0x0030

abbrev pub resource_describe : ℕ
resource_describe = 0x0031

abbrev pub resource_status : ℕ
resource_status = 0x0032

abbrev pub resource_reset : ℕ
resource_reset = 0x0033

abbrev pub resource_contract : ℕ
resource_contract = 0x0034

abbrev pub resource_acquire : ℕ
resource_acquire = 0x0035

abbrev pub resource_renew : ℕ
resource_renew = 0x0036

abbrev pub resource_release : ℕ
resource_release = 0x0037

abbrev pub resource_lease_status : ℕ
resource_lease_status = 0x0038

abbrev pub gpio_create : ℕ
gpio_create = 0x0100

abbrev pub gpio_read : ℕ
gpio_read = 0x0101

abbrev pub gpio_write : ℕ
gpio_write = 0x0102

abbrev pub uart_create : ℕ
uart_create = 0x0200

abbrev pub uart_read : ℕ
uart_read = 0x0201

abbrev pub uart_write : ℕ
uart_write = 0x0202

abbrev pub uart_rx_event : ℕ
uart_rx_event = 0x0280

abbrev pub motion_enqueue : ℕ
motion_enqueue = 0x0900

abbrev pub motion_status : ℕ
motion_status = 0x0901

abbrev pub motion_abort : ℕ
motion_abort = 0x0902

abbrev pub motion_clear_fault : ℕ
motion_clear_fault = 0x0903
