-- ===== src/Hypervisor.antt =====
-- mom/HypervisorInterfaces: the bindings to libvirt and vdsm. `Libvirt` is libvirtInterface.py,
-- `Vdsm` the classes that call vdsm, `Memoize` the cache of vdsmCommon.py, `RpcBase` the queries of vdsmRpcBase.py. What libvirt and
-- vdsm answer is a parameter.
pub mod Libvirt
pub mod Memoize
pub mod RpcBase
pub mod Tests
pub mod Vdsm
