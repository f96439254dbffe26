-- ===== src/Lib.antt =====
-- A model of the resolver library: lookups of addresses by name, and what they are combined from.
--
-- A lookup (interface `Resolver` of resolver.go) is a function of a network, a host and a world `W`,
-- which stands for the network, the clock, the source of randomness and the caller's context; it
-- returns addresses, an error or a panic, and the next world. The resolvers call each other through
-- this interface only: system.go puts literals, the hosts file and the servers one after the other,
-- the servers under a retry and a search list.
--
--   Resolver, Errors   resolver.go and errors.go; errors are a data type with what `errors.Join`
--                      and `%w` wrap.
--   Sequential         sequential.go.
--   Parallel           parallel.go, as a step relation over all interleavings.
--   Shuffle            internal/util/shuffle.go.
--   RoundRobin         round_robin.go.
--   Retry              retry.go.
--   Relative           relative.go, with `Join` of util/domain.go.
--   Literal            literal.go.
--   Hostsfile          internal/hostsfile/hostsfile.go; `RoundTrip` writes the lines that it reads.
--   Hosts              hosts.go; the map is an association list. `Runs` has the calls that change it
--                      in sequence and of several callers, `Written` a written file.
--   Dnsconfig          internal/dnsconfig: `Unix` and `Options` config_unix.go, `Windows`
--                      config_windows.go, `Atoi` the function of package strconv; `Unix.Settings`
--                      writes the lines that `Unix` reads.
--   Dns                dns.go: `Query` is `tryOneName`, `Lookup` is `LookupNetIP`, and `Group` the
--                      goroutines of its queries, as a step relation over all interleavings.
--   Dns64              dns64.go.
--   Fqdn               internal/fqdn/fqdn.go and domain.go; `Sources` and `Tried` say where a name
--                      comes from and what was tried without one.
--   System             system.go; `Origins` follows an answer through all resolvers that `System`
--                      puts together, by the Answers modules of each.
--   AddrSelect         internal/addrselect/addrselect.go: `Policy` the table, the scopes and
--                      `ipAttrOf`, `CommonPrefix`, `Order` the function `Less`, `Sort` the rest.
--   Netip              the part of Go's net/netip that the code uses.
--   Base, Deps         shared helpers, and the parameters for code that is not in the repository.
--
-- A Go function keeps its name in snake case (`tryOneName` is `try_one_name`); the parts of a long
-- function have names of their own, with a comment that names the part. A Laws module, or one
-- named for what it shows, holds the theorems on its parent, and Tests applies them to concrete
-- inputs.
--
-- Conventions. A text is the list of its code points. Machine integers keep their wrap-around
-- where the code multiplies or converts them. Loops are structural recursion; the inner loop of
-- `commonPrefixLen` runs on fuel 8, since eight shifts make any two bytes equal. `sort.Stable`
-- is the insertion sort that it runs on blocks of up to twenty elements; AddrSelect/Sort/Unique
-- compares it with any other stable sort. The queries that run at the same time in dns.go are
-- whole queries, one after the other in one of two orders, when `Lookup` computes; `Group` has
-- a step for the end of each, in every order. A read of a file is its lines and the final error
-- of `bufio.Scanner`.
--
-- Not modelled: internal/winipcfg, a copy of the WireGuard bindings, whose adapters are
-- parameters; examples; tests and their support. The functions of miekg/dns, mergo, retry-go,
-- errgroup, crypto/rand, os, net and the verb `%q` are parameters, with what the code relies on as
-- records of laws.
pub mod Base
pub mod Netip
pub mod AddrSelect
pub mod Errors
pub mod Deps
pub mod Resolver
pub mod Sequential
pub mod Shuffle
pub mod RoundRobin
pub mod Retry
pub mod Relative
pub mod Literal
pub mod Hostsfile
pub mod Hosts
pub mod Dnsconfig
pub mod Dns64
pub mod Dns
pub mod Fqdn
pub mod System
pub mod Parallel
mod Tests
