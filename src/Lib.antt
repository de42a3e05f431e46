-- ===== src/Lib.antt =====
-- btest-rs: a bandwidth test in the protocol of MikroTik, as a server, a client, and a server with
-- users and quotas.
--
-- A client opens a TCP connection, gets a greeting, and sends a 16-byte command: the protocol, who
-- transmits, and at what speed. The server may ask for a password, by a challenge and an MD5
-- response. Then both sides move data over TCP or UDP, in tasks that share one set of counters, and
-- tell each other once a second how much arrived. The server with users keeps a database of users and
-- of the bytes moved on each day; it refuses a connection that is over quota, gives a test a byte
-- budget, looks at the quotas during the test, and records what the test moved.
--
-- Base (with Base/*): lists, bytes, words, text and the tests on numbers that the others share.
-- Protocol (src/protocol.rs): the constants; Protocol/Command the command and its 16 bytes,
--   Protocol/StatusMessage the 12-byte report, Protocol/Wire and Protocol/Cpu their round trips.
-- Stream (src/protocol.rs): the byte stream of a connection and the helpers that read and write it.
-- Auth (src/auth.rs): both ends of the MD5 exchange; Auth/Decision what the server decides,
--   Auth/Response what is in the 48 bytes, Auth/Interop the two ends against each other.
-- Bandwidth (src/bandwidth.rs): the counters, the budget and the pacing. Bandwidth/Budget is about one
--   task at a time, Bandwidth/Race about two that spend at once, Bandwidth/Pacing about the times.
-- Tasks: what the loops of the server and the client share.
-- Server (src/server.rs): Server/Handler is handle_client up to the test, Server/Handler/Ending
--   what it logs and writes after it, Server/Sessions its map of waiting sessions. Server/Tcp,
--   Server/Udp and Server/Status have one function per loop, which is one pass through its body;
--   Server/Spawn has the tasks that a test starts by its direction and the runs of their turns,
--   Server/Session the atomic operations of a test in which one task moves the bytes, with
--   Server/Session/Uninterrupted for what they make of a turn that nothing interrupts, and
--   Server/Losses and Server/Reports what holds of the loops. Server/Ports has the ports of a UDP
--   test on both ends.
-- Client (src/client.rs): Client/Handshake is run_client up to the test, Client/Tcp, Client/Udp and
--   Client/Status have one function per loop, Client/Totals any interleaving of these,
--   Client/Spawn the tasks that a test starts and the runs of their turns, Client/Laws what the
--   client makes of the server's messages, Client/EcSrp5Login a whole login of the two ends.
-- EcSrp5 (src/ecsrp5.rs): EcSrp5/Field, EcSrp5/Sqrt, EcSrp5/Point, EcSrp5/Octets and EcSrp5/Curve the
--   arithmetic, EcSrp5/Exchange the two ends, each with its random key as an argument. EcSrp5/Roots,
--   EcSrp5/Lifting, EcSrp5/Blinding, EcSrp5/Multiples and EcSrp5/Padding are about the arithmetic,
--   EcSrp5/ServerEnd, EcSrp5/ClientEnd and EcSrp5/Agreement about the ends, and EcSrp5/Example is one
--   session that is computed on the curve. Server/Handler/EcSrp5Login puts the server's end into
--   handle_client.
-- Cpu (src/cpu.rs): the load between two samples of the ticks.
-- CommandLine (src/main.rs, src/bandwidth.rs): the direction and the speeds of a client's test.
-- Csv (src/csv_output.rs): the file of results. Syslog (src/syslog_logger.rs): the messages of the log.
-- Calendar (src/server_pro/user_db.rs, src/syslog_logger.rs): the dates and their texts.
-- UserDb (src/server_pro/user_db.rs): the tables and the statements on them; UserDb/Usage,
--   UserDb/Users and UserDb/Sessions hold the operations, their children the laws.
-- Quota (src/server_pro/quota.rs): the checks, the remaining budget and the connection counts.
-- Enforcer (src/server_pro/enforcer.rs): the loop that looks at a running test.
-- ProServer (src/server_pro/server_loop.rs): the handler of a connection; ProServer/Login the
--   exchange with the user database, ProServer/Waiting the sessions that wait for more connections,
--   ProServer/SlotUse the connection counts, ProServer/Settlement the budget and the record of a test,
--   ProServer/FullTest a whole test with its session, ProServer/Ending what is logged of it.
--   ProServer/CommandLine (src/server_pro/main.rs): the commands on users and the limits.
-- Ldap (src/server_pro/ldap_auth.rs): the login against a directory, whose answers are arguments.
-- Web (src/server_pro/web/mod.rs): what the dashboard's requests are answered with.
--
-- How the code is read. An operation on atomics or behind a lock is a function on the state; a task's
-- turn is one piece in Server/Spawn, Server/Reports and Client, which are about what each loop does
-- and not about what comes between its operations. Bandwidth/Race and Server/Session take a turn apart
-- into its loads, adds, subtractions and swaps, of which any order is possible; the byte budget, which
-- depends on that order, is treated there, and holds only where one task spends at a time. Machine
-- integers are natural numbers with the wrap-around written out; the byte sums of the database stay
-- below 2 ^ 63, where the casts to i64 change nothing. Times are nanoseconds and enter a turn as
-- values, and so does how each read or write ended. An exchange over a stream has what is still to be
-- read and what was written; a write fails on a stream that takes none. MD5 and SHA-256
-- and modpow are arguments; where the length of a digest matters it is a hypothesis. A BigUint is a
-- natural number, and its bytes are written out. Floating-point numbers and their texts are arguments.
-- The loops of Tonelli and Shanks, which the curve's prime does not need, and the search of redp1, which
-- ends only where the digest allows, run on fuel. The other recursions are on a list, a text or
-- the steps of a relation, but for the loop over the years in Calendar and the digits in Base/Text: both
-- have fuel of one more than the number, of which each round takes off at least one.
--
-- Not modelled: sockets and buffers, the printed and traced lines, the pages and routes of the dashboard,
-- the reading of the command lines, and the per-interval statistics of the database. That
-- the points of the curve are a group is not proved: where the two ends of EC-SRP5 reach the same secret
-- is a hypothesis, which EcSrp5/Example computes for one session.
pub mod Base
pub mod Protocol
pub mod Stream
pub mod Auth
pub mod Tasks
pub mod Calendar
pub mod Server
pub mod Client
pub mod EcSrp5
pub mod Bandwidth
pub mod Cpu
pub mod UserDb
pub mod Quota
pub mod Enforcer
pub mod CommandLine
pub mod Csv
pub mod Syslog
pub mod Ldap
pub mod Web
pub mod ProServer
