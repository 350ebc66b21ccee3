-- ===== src/Lib.antt =====
-- sakamoto-snort: the decision core of a per-app packet filter for Android.
--
-- The daemon takes packets from kernel queues, keys each one and asks a rule engine whether to let
-- it pass; a connection tracker supplies the state that rules can ask for, and the domain policy of an app
-- answers for the names it asks for. What was decided is written to a ring of telemetry records.
-- A client replaces an app's rules by a command, and saves and restores all policies as a checkpoint.
-- Modelled here are the parts that decide, the records, the command and the checkpoints:
--
-- * `IpRules` is src/IpRulesEngine.{hpp,cpp} and src/IpRulesContract.hpp. `IpRules/Rule` has the rule
--   (`RuleDef`), the packet key and `RuleRef::matches`; `IpRules/Family` the address tests of the two
--   families behind the interface `Ip`, which `ip_v4` and `ip_v6` (`Family/Masks`) fill;
--   `IpRules/Signature` the mask signatures and masked keys; `IpRules/Table` the compiled snapshot,
--   `Bucket::bestEnforce`, `lookupBestEnforce` and `evaluate` (enforcing and would-block rules are two
--   lanes of one definition); `IpRules/Compile` the compiler; `IpRules/Report` its preflight report;
--   `IpRules/Engine`, `IpRules/Replace` and `IpRules/Listing` the control operations on the engine's state; `IpRules/V6` the IPv6 copies;
--   `IpRules/Cache` the decision cache of a thread in front of a snapshot; `IpRules/Validate` is
--   `validatePolicySnapshot`, which announces what a restore will answer.
--   The proofs stand in `IpRules/Correct` (from one bucket to the whole decision), `IpRules/Limits`,
--   `IpRules/Published`, `IpRules/Replaced`, `IpRules/Installed` and `IpRules/Sentinel`.
-- * `Conntrack` is the IPv4 half of src/Conntrack.{hpp,cpp}: keys and entries (`Flow`), the TCP and
--   ICMP checks and the timeouts (`Tcp`), `updateExisting`, the traversal of a bucket and the entry of
--   a new flow (`Update`), with the proofs in `Keys`, `Peers` and `Others`.
-- * `Packet` is `PacketManager::make` of src/PacketManager.hpp with src/IpRulesCapsCache.hpp (`Make`): the
--   order in which it asks the interface block, the rules, the tracker and the domain policy, its verdict, and what
--   it tells the counters, the rules and the telemetry as a list of effects. The tracker (its lookups,
--   its commits and the telemetry's observations, which enter flows of dropped packets too), the rule snapshot
--   and the answers of the domain policy are its parameters. The proofs stand in `Verdict`, `Dropped` and `Rules`.
-- * `Domain` is the domain policy: src/Rule.cpp and src/CustomRules.cpp (`Rules`), the lists of
--   src/CustomList.cpp, the tests of src/DomainManager.cpp and the decision of src/App.cpp (`Policy`), and the
--   explanation that src/App.cpp gives of it (`Debug`), with the proofs in the other modules. `std::regex` is a
--   parameter (`RegexLib`) with laws on what it documents.
-- * `Telemetry` is src/FlowTelemetryAbi.hpp (`Abi`), the encoders of src/FlowTelemetryRecords.cpp (`Records`) and
--   `init` and `tryWrite` of src/FlowTelemetryRing.cpp (`Ring`). A span is a buffer with a size, and an access past it a
--   fault (`none`). `Consumer` reads a record back at the offsets of the ABI: it is the specification of the
--   encoders, and no code of the daemon. The flags' `|` is written as a sum of distinct bits.
--   `Ring/Written`, `Ring/Attempts` and `Ring/Started` are proofs about `tryWrite` and `init` alone.
--   `Ring/Steps` runs `tryWrite` for any number of producers, one atomic operation or copy at a time and in any
--   order; `Ring/Exclusive`, `Ring/Kept` and `Ring/Concurrent` are the proofs about it.
-- * `Checkpoint` is src/PolicyCheckpoint.{hpp,cpp}: the bundle of all policies (`Bundle`), what it reads and writes
--   as JSON (`Json`, `Fields`, `Masks`, `Policy`, `Enums`, `IpRules`, `Codec`) and `validateBundle` (`Valid`). RapidJSON
--   is a parameter, `JsonLib`, with the laws `JsonLaws` where a text is read back; `Platform` holds the limit
--   of host names, the test of a time, the regex library and the rule engine. A number cast to an enumerator that the
--   source does not have is the result `outside`. The proofs stand in `PolicyTrip`, `IpTrip` and `RoundTrip`
--   (with `Ranges`, the ranges of the fields) and in `Distinct`, `Sound` and `Decoded`.
-- * `Control` is `IPRULES.APPLY` of src/ControlVNextSessionCommandsIpRules.cpp: the words of a rule
--   (`Words`, `Enums`) and its match key (`Apply`), a rule of the request (`Rule`), and the handler on the rule engine (`Apply`), with
--   its proof in `Applied`. `inet_pton`, `inet_ntop` and the look-up of the app are parameters, the former with
--   laws (`InetLaws`) in `Addresses`. `Texts`, `EnumTexts`, `Addresses`, `Fields` and `Keys` are proofs about the texts of ports,
--   addresses and match keys.
-- * `Ipv6` is src/Ipv6L4Walker.hpp: `parseIpv6L4` (`Walker`) and its proofs (`Sound`).
-- * `Netstring` is the framing of src/ControlVNextCodec.cpp: the decoder and encoder (`Codec`), and their
--   round trip (`RoundTrip`).
-- * `Common` has the tests, lists, integers, sorting and association lists that these share, and
--   `Tests` concrete inputs.
--
-- Numbers are natural numbers; where the source wraps around, `% 2 ^ w` is written out, and where
-- a range matters it is a hypothesis. A `std::map` is an association list in key order, a hash map one in
-- any order, a `shared_ptr` to counters the number of its address. `std::sort` is an insertion sort by
-- the same comparator. The loop of the IPv6 walker runs on fuel 10: each round but the last takes a header,
-- and the tenth round would find the budget of eight headers spent. A read past the end of the payload is
-- a fault (`none`), so a proof that a result is returned shows that none happens.
-- The netstring decoder has fuel for one round more than its buffer has bytes; its sums of lengths do not wrap, as
-- those of the source do not for frame limits well below 2 ^ 64.
--
-- Not modelled: locks and memory orders (each operation is one step; the interleaved producers of a ring are
-- sequentially consistent), the other text form of rules (`addFromKv`, `updateFromKv`), the saved file and the
-- explanations of src/IpRulesEngine.cpp; sweeping, reclamation, the capacity check and telemetry of
-- src/Conntrack.cpp; the streams and the explanation stages of src/PacketManager.hpp; the registry of rules and the
-- subscribed domain lists, which the policy takes as functions; the session and the shared memory of the
-- telemetry; the slot files of checkpoints, the capture of the live policy and the restoring of the managers other
-- than the rule engine; the sessions and the other commands of the control protocol, statistics, persistence and the
-- listeners. They are input and output, or planned for later.
pub mod Common
pub mod Checkpoint
pub mod IpRules
pub mod Ipv6
pub mod Conntrack
pub mod Netstring
pub mod Telemetry
pub mod Domain
pub mod Packet
pub mod Control
mod Tests
