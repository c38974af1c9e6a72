-- ===== src/Lib.antt =====
-- certo, a server for DNS-01 challenges and hosted zones. It keeps every DNS fact in a SQLite database
-- and derives from it what a PowerDNS server answers. The parts and the files that model them:
--
--   Prelude   Boolean tests on the native naturals, lists, `Result` with Rust's `?` as a `do` block, and
--             tables as lists of rows.
--   Text      Rust's `str` methods on lists of Unicode code points. `str::to_lowercase` is a parameter
--             (`Unicode`) that agrees with ASCII case mapping on ASCII text.
--   Names     crates/certo-pdns/src/names.rs: zone names, owner names and rrset changes.
--   Core      crates/certo-core/src: types.rs (accounts, key scopes, challenge names), ids.rs in Core/Ids,
--             config.rs in Core/Config.
--   Db        crates/certo-db/src: zones.rs in Db/Zones, store.rs in Db/Txt and Db/Accounts. A table is a
--             list of rows in rowid order, a function takes the database and returns the next one, and
--             an error leaves the database as it was, since the transaction is rolled back.
--   Db/Step   one call of a mutating function of the store, with any arguments, and histories of calls.
--             The calls hold the connection's lock for a whole transaction, so a history of the database
--             is a sequence of them.
--   Sync      crates/certo-pdns/src/zones.rs: what PowerDNS should serve for a zone, and the changes that
--             bring it there.
--   Pdns      crates/certo-pdns/src/client.rs: a PowerDNS server is a parameter, a record of its HTTP
--             endpoints as functions of its state; Pdns/Client reads its answers. Pdns/Mock is mock.rs,
--             a server that the examples use, and Pdns/Answers what is relied on of a server.
--   Service   crates/certo-pdns/src/zones.rs: the operations of `Zones`, over the database and a server.
--             An operation returns both states with its result, when it fails too. Service/Seed is the
--             base zone and the challenge values, Service/Convergence and Service/Syncing the way from
--             the database to PowerDNS, Service/Lifecycle and Service/Checking the zones and their
--             delegation checks, Service/Records and Service/Transfers the data of a zone.
--   Service/Runs  sequences of operations of the service, as histories of the database.
--   Api       crates/certo-api/src: the handlers, after their extractors, in the same monad with HTTP errors.
--             Api/Auth is auth.rs, Api/Challenges httpreq.rs and acmedns.rs, Api/Accounts web.rs and
--             Api/Hosting zones.rs. Handlers whose names clash with those of the service are
--             `create_zone_for`, `patch`, `get_zone`, `change_dnssec` and `new_tsig_key` of Api/Hosting.
--   Api/Runs  requests one after the other, as histories of the database.
-- A function keeps the name it has in the code; where two would clash, `zones`, `zone_rrsets`,
-- `zone_dnssec` and `zone_tsig_keys` of Db are `list_zones`, `rrsets_of`, `dnssec_of` and `tsig_keys_of`,
-- `zone` is `zone_by_name`, and `user_domains` is `user_domains_of`.
--
-- Parameters: the Unicode lower-casing of a text, SHA-256 as a function from texts to bytes, the answers
-- of the system's random generator as a list, random identifiers, the time as an argument, a PowerDNS
-- server, the delegation check, the public suffix list, and for the handlers JSON web tokens, bcrypt,
-- Base64 and the reading of addresses and networks.
--
-- Bounds and fuel: row ids, times and versions are natural numbers, since SQLite's 64-bit integers do not
-- overflow in use; `u32` fields of a change are compared with their limits as the code does. The loop of
-- `nanoid` runs over the list of the generator's answers, and is shown to end with its result when they
-- hold enough bytes. The loops over ten attempts recurse on the attempts left.
--
-- Not modelled: opening the database and its schema version, failures of SQLite other than constraints,
-- the JSON text of list columns, the HTTP transport, the routing and the JSON of requests, DNS look-ups, the PowerDNS process, the
-- certificate client, logging, and the dashboard.
pub mod Prelude
pub mod Text
pub mod Names
pub mod Core
pub mod Db
pub mod Sync
pub mod Pdns
pub mod Service
pub mod Api
pub mod Tests
