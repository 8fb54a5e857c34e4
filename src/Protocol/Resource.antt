-- ===== src/Protocol/Resource.antt =====
-- protocol/include/remotebsp/protocol/resource.hpp and protocol/src/resource.cpp: the payloads of
-- the resource commands. The enums are the numbers that they are on the wire: each is a C++ enum
-- over `std::uint8_t`, and the code tests its range.
pub mod Types
pub mod Lists
pub mod Leases
pub mod RoundTrip
pub mod ListRoundTrip
mod Examples
