-- ===== src/Lib.antt =====
-- KOS, the Kubernetes network control plane of this repository (staging/kos): a verification
-- library.
--
-- KOS gives every network attachment an IPv4 address. The API server accepts Subnet objects, each
-- with a VNI and a block of addresses; the IPAM controller watches attachments, picks an address
-- of the subnet that its cache says is free, locks it by creating an IPLock object whose name says
-- VNI and address, and writes the address into the status of the attachment. The cache keeps one
-- set of 32-bit numbers for each VNI.
--
-- The parts, and where they are:
--   * Uint32Set models staging/kos/pkg/uint32set. Uint32Set/Sorted is sortedset.go (Find, Add,
--     Remove, Check), Uint32Set/Choose is its AddOneInRange, Uint32Set/Export its Export and
--     RExport, Uint32Set/Hash is hashset.go, Uint32Set/Contract relates the two behind the
--     interfaces of types.go. The sorted set of the third-party package that sortedset.go is built
--     on is the record SortedSetLibrary of Uint32Set/Library, with the documented behaviour of its
--     calls as laws and ordered lists as an instance. Random numbers are arguments.
--   * GoText is what the code uses of Go's fmt, strconv, strings and regexp; texts are lists of
--     character codes. GoNet is what it uses of package net: addresses and networks, with a
--     form of four bytes or without.
--   * Ipam models staging/kos/pkg/controllers/ipam/ipam.go. Ipam/LockName: makeIPLockName2,
--     parseIPLockName, IPv4ToUint32, Uint32ToIPv4 and IPNetToBoundsU. Ipam/Locks: ParsedLock and
--     ParsedLockList. Ipam/Owners: GetOwner and OwningAttachments. Ipam/Cache: TakeAddress,
--     PickAddress and ReleaseAddress over addrCache, each one step under its mutex. Ipam/Analysis:
--     the locks in analyzeAndRelease, and deleteIPLockObject. Ipam/Placing: analyzeAndRelease as a
--     whole. Ipam/Pick: pickAndLockAddress. Ipam/Notices: OnLockNotify and the other handlers of
--     notices, with the items that they add to the work queue as a list. Ipam/AttachmentData: the
--     map atts with getNetworkAttachmentData and clearNetworkAttachmentData. Ipam/Processing:
--     processQueueItem, processNetworkAttachment and updateNAStatus over both maps; what the
--     informers, the API server and the random numbers answer is the record World.
--   * Subnet models staging/kos/pkg/registry/network/subnet/strategy.go, the validation of Subnet
--     objects.
--   * Ovs models staging/kos/pkg/networkfabric/ovs/ovs.go. Ovs/Commands: the command lines of
--     ovs-vsctl and ovs-ofctl. Ovs/Flows: the texts of the flows. Ovs/Parsing: what they are read back
--     as. Ovs/Fabric: the state, with the locked pairs of VNI and address, and the creation and
--     deletion of interfaces. Ovs/Listing: ListLocalIfcs and ListRemoteIfcs. Open vSwitch is a
--     function from the commands so far and the next one to what that prints and its error.
--   * Logger models staging/kos/pkg/networkfabric/logger, the fabric that keeps what it was told,
--     and the registry of fabrics in staging/kos/pkg/networkfabric/factory.
--   * Agent models some of staging/kos/pkg/controllers/connectionagent: the MAC addresses and names
--     of interfaces, and in Agent/Sightings the virtual networks in which an attachment was seen.
--   * Util models staging/kos/pkg/util/data.go.
--
-- How it is modelled. Numbers are natural numbers and the wrap-around of uint32 is written out.
-- Code that can panic returns Go, with panic as a value. State is passed and returned. Errors are
-- constructors, or none where only their presence matters. The API server is a parameter: Get,
-- Create and Delete are functions, and in the loop of pickAndLockAddress functions of the number
-- of the round. net.ParseCIDR, net.ParseIP and IP.String are parameters. ParseCIDR and ParseIP give
-- an address or a network that has a form of four bytes, which To4 gives, or has none; on the latter
-- the code panics where it takes the bytes, and so does the model. Where a theorem needs it, the
-- networks with four bytes are taken to be masked and to leave at most 32 bits, as ParseCIDR makes
-- them. Creation times count from Go's zero time, and two of them are the same if they are of the
-- same instant.
--
-- Fuel. Export of the sorted set has the count of the runs and one more, which suffices. The loop
-- of pickAndLockAddress runs for as long as an IPLock is there for Create and gone for Get; the
-- fuel is an argument, and enough is one more than the number of the first round that ends it.
-- `%d` has 20 digits, which is enough below 2 ^ 64.
--
-- Not modelled: logs, metrics, informers and the set-up of the controllers, the rest of the
-- connection agent, the texts of errors but those in statuses, the load driver, generated code and
-- start-up.
pub mod Common
pub mod GoNet
pub mod GoText
pub mod Ipam
pub mod Logger
pub mod Agent
pub mod Ovs
pub mod Subnet
pub mod Uint32Set
pub mod Util
