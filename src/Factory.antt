-- ===== src/Factory.antt =====
-- src/iree_ep_factory.cc: the state of the factory, and its parts in the child modules. `Devices` is
-- the enumeration in the constructor, `Cache` is `GetDeviceForId`, `Supported` is
-- `GetSupportedDevices`, `CreateEp` and `CreateAllocator` are the creation callbacks.
pub mod State
pub mod Devices
pub mod Lifetime
pub mod Cache
pub mod Supported
pub mod CreateEp
pub mod CreateAllocator
pub mod Startup
