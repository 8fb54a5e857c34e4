-- ===== src/Lib.antt =====
-- RemoteBSP lets a host use the pins, serial ports and motors of microcontrollers on a CAN bus. The
-- host's daemon (toolbusd/) finds the nodes, gives them ids, and sends them requests; a node (mock_mcu/
-- simulates one) answers them. What they exchange are packets (protocol/), which are cut into fragments
-- that fit one CAN frame and are put together again on the other side.
--
-- Which file models what, with paths from the repository's root:
-- - Protocol/Packet: protocol/src/packet.cpp. `encode` and `decode` are the functions of that name, and
--   return a `PacketError` where these throw. Protocol/Crc32: protocol/src/crc32.cpp, bit by bit.
-- - Protocol/Fragmentation: protocol/src/fragmentation.cpp. Frame has `encode_fragment` and
--   `decode_fragment`, Split the class `Fragmenter`, Reassembler the class `Reassembler`: its record
--   has the fields of the class, and `accept` returns the reply beside the object that the call
--   leaves, also where it throws. The branches of the C++ `accept` are the functions `accept_new`,
--   `accept_duplicate`, `accept_piece` and `accept_fragment`.
-- - Protocol/Discovery, Protocol/Resource, Protocol/Motion: the payloads of protocol/src/discovery.cpp,
--   resource.cpp and motion.cpp. One copy of the byte order helpers that these files repeat is in Bytes.
-- - Toolbusd/RequestManager: toolbusd/src/request_manager.cpp, the requests that wait for a response.
-- - Toolbusd/NodeRegistry: toolbusd/src/node_registry.cpp, the nodes by UUID. It decodes and encodes
--   the payloads of Protocol/Discovery.
-- - Toolbusd/TrafficControl: toolbusd/src/traffic_control.cpp, the cost of a CAN frame and the class
--   of a packet; FrameLength and FrameCost have its lemmas.
-- - MockMcu/Gpio and MockMcu/Uart: mock_mcu/src/gpio_bsp.cpp and uart_bsp.cpp.
-- - MockMcu/Motion: mock_mcu/src/motion_executor.cpp. Timing has the arithmetic of edge times and
--   rates, Edges the edges of a move and what they do to an axis, Enqueue the constructor and
--   `enqueue`, Executor `advance_to`, `abort`, `trigger_limit`, `clear_fault` and `status`.
-- - MockMcu/RemoteCore: mock_mcu/src/remote_core.cpp. Its record has the fields of the class. Leases has
--   the leases and the objects that end with them; ResourceHandlers, LeaseHandlers, GpioHandlers,
--   UartHandlers and MotionHandlers have one function for each `handle_` function of the class, which
--   gives an answer or the early return that it takes; Handle has the dispatch and makes the packet.
-- - MockMcu/Node: mock_mcu/src/mock_node.cpp. `process_request` and its cache; Calls has the calls
--   around it. It uses Protocol/Fragmentation, Protocol/Packet and MockMcu/RemoteCore.
-- - System: what the request manager of the daemon and the core of a node have to do with each other.
-- Prelude has what the parts share: tests on numbers, lists, bit operations, results, association lists.
-- The children of a component that are named for what they prove hold its lemmas and theorems, and
-- Examples the runs at concrete inputs.
--
-- How the code is translated:
-- - An unsigned number is a natural number, and a conversion to a narrower type is written as a
--   remainder; a signed one is an integer of Prelude/Int. A byte string is a list of numbers.
-- - A time point and a duration are numbers of ticks of one clock; `now - t >= d` is `t + d <= now`.
-- - A hash map is an association list. The order of its entries, which the C++ standard leaves open,
--   shows in the order of the events of `poll` and of the list of `expire`, and in `find_by_node_id`.
-- - A C++ enum that is read from the wire is its number; the others are data types.
-- - Every loop is a structural recursion: over the list or map that it walks, or over the number of
--   its rounds, which is the C++ bound itself (the count of fragments, the number of pieces, the
--   2^32 - 1 attempts of `allocate_request_id`), so no fuel is chosen.
--
-- - The remote core is given the simulated ports, which implement the interfaces `GpioBsp` and
--   `UartBsp`; they report no other errors than their own.
-- - A vector that `std::sort` orders is sorted by insertion, which keeps equal elements in place.
--
-- Not modelled: the controller of the traffic control, whose budgets are `long double` numbers that
-- the kernel has no arithmetic for, and the names of its classes; the board manifests, the CAN frame
-- codec, the daemon's IPC and the client library; the programs and the SocketCAN transport, which are input and output; the firmware in C and its
-- bootloader; the function `records` of the node registry, a sorted copy of its entries.
pub mod Prelude
pub mod Bytes
pub mod MockMcu
pub mod Protocol
pub mod System
pub mod Toolbusd
