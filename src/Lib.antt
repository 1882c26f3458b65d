-- ===== src/Lib.antt =====
-- The pure core of BurmillaOS, a Linux distribution whose system services are containers.
--
-- The boot reads the kernel command line and several configuration files into trees of values,
-- merges them, and starts the system services of the merged configuration as a compose project.
-- The parts and their files:
--
--   Config      the tree of values, and its functions: `Copy`, `MapCopy`, `SliceCopy` and `Merge`
--               of pkg/util/util.go (Config/Merge.antt), `filterKey` of config/data_funcs.go
--               (Config/FilterKey.antt). A Go map is the list of its entries in the order in which
--               a loop over it meets them; well-formed trees have distinct keys.
--   Config/Disk  config/disk.go and config/config.go: reading the configuration files, the layers of
--               disk, kernel command line and metadata (`loadRawConfig`, `mergeMetadata`), and what
--               `Export`, `Merge` and `Set` give or write. Files, the YAML parser, the conversion
--               into the configuration's struct and the substitution of variables are the record
--               `System`.
--   Compose     pkg/libcompose/config: environment files and build contexts of a service
--               (Compose/Service.antt, merge.go, merge_v1.go, merge_v2.go, utils.go), `parseV1` and
--               `parseV2` with their extended services (Compose/Parse.antt), and the files of
--               services (Compose/Services.antt). The two versions share the definitions and differ
--               in their parameters. A panic is a result of its own (Base/Result.antt).
--   Cmdline     config/cmdline/cmdline.go: the words of the command line (`splitCmdLine`), its
--               settings (`Parse`), reading and writing at a dotted key (`GetOrSetVal`). The tree
--               is that of Config. The YAML parser is a parameter.
--   Project     pkg/libcompose/project/project.go: `startService` and the loop of `traverse` that
--               calls it. The shared maps `launched` and `ignored` are a state that the calls pass
--               on. What a service depends on and the cycle action are parameters; actions are
--               launched, not run. service-wrapper.go is Project/Wrapper.antt: the goroutines of
--               the services with their wait groups, one step at a time, under any schedule. They
--               take the ignored dependencies that `startService` found. Project/Wrapper/Plan.antt is
--               what a round promises, without goroutines.
--               Project/Rounds.antt puts both into `traverse` with its restart rounds; a list has what
--               happens in each round.
--   SystemService  pkg/docker/service.go and service_factory.go: the dependencies of a system service
--               (SystemService.antt), and `shouldRebuild` and `Up` (SystemService/Up.antt), whose
--               calls of Docker are a trace of actions with their errors as parameters. Its
--               `Relationship`s are those of Project, and its restart is what the wrappers meet.
--   CoreServices  pkg/compose: the services of the system as a project. CoreServices.antt has the
--               preprocessing, Projects.antt the configurations of a project (project.go of
--               pkg/libcompose/project), Loading.antt and Reload.antt the functions of reload.go with
--               `addServices`, Staging.antt `StageServices`; Resources.antt and Cache.antt are
--               pkg/util/network. Files, HTTP and YAML are the record `Host`. Merging.antt makes the
--               merger of a project of Compose's `merge_file`.
--   NetConf     pkg/netconf: the entry of the configuration that a link gets (NetConf.antt), the VLANs
--               and the link-local addresses, and what `ApplyNetworkConfigs` does to the links as a
--               trace of its calls (NetConf/Actions.antt, Creating, Applying, Outer); Bonding.antt has
--               the files that these write for a bond. netlink, the commands and the patterns are
--               the record `Machine` or parameters.
--   Interpolation  pkg/libcompose/config/interpolation.go: `parseLine`, which replaces variables
--               in a line, and `parseConfig`, which does so in all texts of a tree; `Interpolate` is
--               in Compose/Services.antt.
--   ContainerId pkg/util/util.go: `GetCurrentContainerID`, on the lines of its two files.
--   Versions    pkg/util/versions/compare.go.
--   Network     config/cloudinit/network: the lines of a Debian network file (Network/Debian.antt,
--               debian.go), its stanzas (Network/Stanza.antt and its children, stanza.go), and
--               the map of interfaces that they describe (Network/Interface.antt, interface.go),
--               with their links, depths and order (Network/Interface/Depths.antt). The package
--               net is a parameter.
--   EnvFile     config/cloudinit/system/env_file.go: the update of a file of lines `KEY=value`. Its
--               regular expressions are functions on a line.
--   Respawn     cmd/respawn/respawn.go: the restart loop of a process, on the list of its ends,
--               and the main loop, on the list of the processes that have ended.
--   Backoff     pkg/util/backoff.go: the sleeping times and what the loop sends.
--   Strings     the functions of Go's package strings that the source calls, on texts, which are
--               lists of code points. Base has the shared types, tests and laws.
--
-- Fuel: `start` gives each chain of calls one unit for every service and one more, since every call
-- that goes on marks a service that was not marked; `parse_line` gives its loop one unit for each
-- character and one for the end. Neither runs out. The source does not bound
-- the chain of services that extend each other, so `parse_service` takes its fuel as an argument;
-- so does `set_depth`, since the interfaces may be built on each other in a circle.
-- `traverse` takes what happens in its rounds as a list, since a service may ask for a restart
-- again and again.
-- All other functions are structural.
--
-- Integers: positions and counts stay below the length of a text in memory, so they do not wrap
-- around; `strconv.Atoi` is modelled with its failure outside of 64 bits.
--
-- Shared memory: the maps that Go changes in place (`serviceData` in `readEnvFile`, `datas`) are passed
-- on as values; a service that is read is stored back where the source shares its map. Appending to a
-- slice never shares its tail with another one.
--
-- Not modelled: whatever reads files, calls Docker or the kernel, and logs; the bodies of the
-- actions that a project launches; the other cloud-init readers; the vendored code.
mod Base
pub mod Strings
pub mod Versions
pub mod Interpolation
pub mod ContainerId
pub mod Config
pub mod Compose
pub mod Cmdline
pub mod Network
pub mod Respawn
pub mod Backoff
pub mod EnvFile
pub mod SystemService
pub mod NetConf
pub mod CoreServices
pub mod Project
