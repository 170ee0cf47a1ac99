-- ===== src/Lib.antt =====
-- A model of the OpenSurge gateway: its lifecycle, its device policy, and the parts around them.
--
-- The gateway turns a host into the router of a network: it starts the proxy engine (mihomo), a DNS
-- and DHCP server (dnsmasq) and an IPv6 packet broker, enables forwarding, loads firewall rules and
-- points the host's own resolver and proxy at the engine. What it changed is recorded in a runtime
-- state file, from which a stop, perhaps of another process, restores the host. A device policy says
-- how each device is routed: it is validated, restricted to the gateway's LAN, and compiled to
-- selector groups and rules for the engine and to reservations for DHCP, with which the lease file is
-- reconciled. While the gateway runs, the control API watches the engine and restarts it once per
-- incident, closes connections on demand and shows their traffic, and the packet broker carries
-- clients' IPv6 packets between the network and the engine. To take a home router's place, the user
-- follows a workflow of requests to the control API, which records each stage and can lead back. A
-- configuration is validated with its device policy before any of this.
--
-- Files, and the code that each is about:
--   Base, Text, Lists, Exec
--                        shared names, strings as lists of bytes, list functions over the native
--                        numbers, and actions that change a state and may return an error (what was
--                        changed before the error stays changed)
--   Gateway/Types        internal/config/config.go (what the lifecycle reads), internal/runtime/state.go
--                        (State, snapshots) and internal/runtime/boot.go (BelongsToBoot)
--   Gateway/World        gatewayDeps of internal/gateway/manager.go: the host, the state file, and the
--                        answers of every call
--   Gateway/Services     the service interfaces of manager.go and internal/process/process.go
--   Gateway/Preflight    resolveIPv6, preflight, checkLANIP, checkLANIPConflicts of manager.go, and
--                        internal/gateway/reservation_conflicts.go
--   Gateway/Tracked      stopTrackedProcess, trackedProcessRunning, restoreSystemDNS, cleanupIPv6
--   Gateway/Rollback     rollback
--   Gateway/Start        startWithCommit: Start/Plan up to the first state file, Start/Steps from the
--                        first change of the host on
--   Gateway/Stop         stop and cleanupInterruptedRuntime
--   Gateway/Reload       reload and validateReloadCandidate
--   Gateway/Restart      restartMihomo
--   Gateway/Tracking     what the state file has to record of the host, and that each action keeps it
--   Gateway/Quiet        the checks that change neither host nor state file
--   Gateway/Calls        which calls an action makes
--   Gateway/Guarantees   the theorems about whole actions
--   Device/Policy        the declarative device policy of internal/device/policy.go, and its errors
--   Device/Names         its checks of single values: validID, validPolicy, validPortRange and others
--   Device/Variants      ruleVariants and combinationCount
--   Device/Validate      validateMatch, validateRules, validateRuleSet and resolveProfile
--   Device/Accept        ValidatePolicySet
--   Device/Expansion, Device/Countable, Device/Accepted, Device/Addresses, Device/Compilable
--                        what validation ensures of matches and of addresses
--   Device/Resolution    internal/device/resolution.go: targetAvailable and resolveSelector
--   Device/Compiled, Device/Slots, Device/Assemble, Device/Compile
--                        compilePolicySet and what it makes
--   Device/Compiles, Device/Targets, Device/Supports, Device/Inventory, Device/Choices, Device/Bypass
--                        what the compilation ensures
--   Device/Tests, Device/CompileTests
--                        a small policy
--   Lan/Scope, Lan/Offsets
--                        internal/lan/lan.go
--   Lan/Policy, Lan/Active, Lan/Validated
--                        ValidatePolicySetForLAN, OutOfLANDevices and ActivePolicySetForLAN of policy.go
--   Leases               internal/dhcp/leases.go: ReconcilePolicyLeases
--   Recovery/Controller  mihomoRecoveryController of internal/controlapi/mihomo_recovery.go
--   Recovery/Samples     evaluateMihomoRecovery up to its observation
--   Recovery/Monitor     the restart of evaluateMihomoRecovery, beside gatewayAction and
--                        runOperationLocked of internal/controlapi/server.go
--   Recovery/Budget, Recovery/Warrant, Recovery/Settled, Recovery/Asked, Recovery/Incidents
--                        when the engine is restarted
--   Packet/Protocol      internal/ipv6packet/protocol.go
--   Packet/Frames, Packet/Broker
--                        internal/ipv6packet/broker.go: parseInboundFrame, neighborTable, readInbound
--                        and readOutbound
--   Packet/Roundtrip, Packet/Neighbors, Packet/Delivery, Packet/Clients
--                        what the broker carries
--   Traffic/Connections, Traffic/Closed
--                        matchingConnectionIDs of internal/controlapi/connection_refresh.go
--   Traffic/Egress, Traffic/Order, Traffic/Primary
--                        connectionEgress and primaryEgress of internal/controlapi/device_traffic.go
--   Takeover/Stage, Takeover/Types, Takeover/World, Takeover/Store
--                        the recovery record and the operations of internal/controlapi/store.go,
--                        models.go and operations.go, and what the server has done
--   Takeover/Manual      ValidateManual, VerifyManual of internal/macosnetwork/types.go, and
--                        validateClientAcceptance
--   Takeover/Begin, Takeover/End
--                        the requests of a takeover in internal/controlapi/server.go
--   Takeover/Actions, Takeover/Finish
--                        handleGatewayAction and runOperation there
--   Takeover/Steps       the requests and the lifecycle operation as steps, one after the other, in any
--                        order
--   Takeover/Sound       what holds of every reachable world: Sound/Rules, Saves, Operations and
--                        Calls have the rules, Begin, End, Actions and Finish the handlers, Reached
--                        the theorems
--   Takeover/Ways, Takeover/Leaving, Takeover/Ends
--                        the ways out of a takeover, stage by stage
--   Takeover/Again       an action that is asked for twice with one ID
--   Config/Types, Config/Words
--                        the configuration of internal/config/config.go and the tests on its words
--   Config/Addresses, Config/Policies, Config/Profiles, Config/Tailnet, Config/Validate
--                        internal/config/validator.go
--   Config/Accepted, Config/Ranges, Config/Devices, Config/Candidates
--                        what an accepted configuration ensures
--   Gateway/Tests        a host and a configuration at which the actions run
--
-- How the code is modelled. A call of a dependency is an entry of a trace, and its outcome is
-- the environment's, a function of the number of the call: whether it fails, whether a failing
-- change took effect all the same, and what it returns; the theorems hold for every environment.
-- A failing change may have taken effect or not. The start of a process, and the loading of the
-- firewall's rules with pf, clean up after a failure themselves; that this cleanup has failed
-- too, which leaves the process or the rules, shows in the model's error (uncleaned), though not
-- in its text. A pfctl that fails to load rules or to enable pf has no effect. A process ends
-- when a look at it says so, and not while it is not looked at. Reservation probes, which the
-- code runs on four workers, are made one after the other, as only the order of their errors
-- counts. A fingerprint is absent or a number, the LAN address is its parsed value, and a
-- cancelled context is an answer of ctx.Err(). Nothing is bounded and no action loops, so no
-- action needs fuel. Of a device policy, the parsers of Go's net and net/url are parameters
-- (Parsers); strings are bytes, combinationCount's int is its word of 64 bits, and TrimSpace,
-- ToLower and EqualFold are those of ASCII; a loop over devices, rules or templates is recursion
-- on the list.
-- Of the compilation, a Go map is the list of its entries, and each device and rule adds its
-- part to the compiled policy; net.IP.String is a parameter. The recovery's monitor is a step
-- relation: one evaluation at a time, whose observation and restart are steps of their own, and
-- any other holder of the lifecycle lock between them; a reading that fails is absent. An IPv4
-- address is a number below 2 ^ 32, an IPv6 address its 16 bytes, and a frame, a packet and a
-- message are lists of their bytes, as numbers. A round of the broker takes one access of the
-- table under its lock, and rounds run in any order. netip.Addr.IsGlobalUnicast is modelled from
-- its documented behaviour. The lease file's net.ParseMAC is a parameter. An outlet's usage is
-- counted without a bound.
-- A request of a takeover reads and writes the store in one step: the handlers hold no lock
-- meanwhile, so the theorems are about requests of which none overlaps another or the end of a
-- lifecycle operation (Takeover/Steps), and a reachable world is one that such requests lead to.
-- A lifecycle action is two steps, its launch and its end, with any requests between them, as
-- its goroutine holds only the lifecycle lock. What the code outside of the server answers to a
-- request is a record (Outside) of its own for every request: the configuration, the clock, the
-- DHCP probe, each write of a file. A stored file is replaced whole or not at all, and an error
-- in an operation is its code. Of the configuration, the parsers of net, netip, net/url and
-- strconv are parameters, and an error is the name of the setting it is about; a policy bundle's
-- digests and its JSON are left out, and so is the path of the cache of selections.
--
-- Not modelled: the file lock around the lifecycle's actions, the texts of errors and printed lines,
-- and the commands behind the services (pfctl, sysctl, networksetup, ifconfig, dnsmasq, mihomo), which
-- appear only by their effect on the host; sockets, packet devices, timers and HTTP. The rest of the
-- control API, the device policy's workspace that a start reads, the web and desktop applications,
-- the loading and rendering of configuration files and the rendering of mihomo and dnsmasq
-- configurations are not modelled.
pub mod Base
pub mod Text
pub mod Lists
pub mod Exec
pub mod Gateway
pub mod Device
pub mod Packet
pub mod Recovery
pub mod Lan
pub mod Leases
pub mod Traffic
pub mod Config
pub mod Takeover
