-- ===== src/Lib.antt =====
-- octopuslb, a TCP load balancer: one process accepts clients on a listening socket, connects each
-- to a member server (and, if cloning is on, sends a copy of what the client says to a clone
-- server), and moves bytes between them from one epoll loop. A monitor process, forked from it, and
-- an administration program work on the same balancer state in shared memory.
--
-- Which file models which part of the program (paths from the root of the repository):
-- - Balancer: the shared state of src/octopus.h, `SERVER` and `BALANCER`, as records with the
--   fields that the balancing code uses. Balancer/Create has `create_balancer_server`,
--   Balancer/Cloning has `set_cloned_state`.
-- - Select: src/algorithms.c. `get_available_servers` and `verify_server` stand in Select, the
--   algorithms in Select/Rotate (round robin), Select/Least (least connections, least load) and
--   Select/Hash (URI hash and static), the parsing of the request line in Select/Uri, and the
--   choice by `balancer->algorithm` in Select/Choose. The globals `next_member`,
--   `available_members`, `use_clone` and so on are the record `Selection`.
-- - Session: `SESSION`, the STATE_ bits (one Boolean for each) and the queue of unused sessions.
--   Session/Queue has `get_new_session`, `add_unused_session`, `pop_unused_session` (src/octopus.c)
--   and `initialize_unused_session` (src/init.c), Session/Disconnect the three disconnections and
--   `delete_session`, Session/Epoll the watched descriptors, Session/Buffer the byte buffers.
-- - Connect: `connect_server` of src/connect.c and `choose_server` of src/algorithms.c.
-- - Traffic: the handlers `client_read`, `client_write`, `member_read`, `member_write`,
--   `clone_read` and `clone_write` of src/octopus.c, one child for each side of a session.
-- - Loop: the main loop of src/octopus.c, one step for each event of epoll.
-- - Monitor: src/monitor.c. Monitor/Check has `check_server_state` and `check_server_snmp`,
--   Monitor/Load `calc_effective_load`, Monitor/Delete `handle_delete_servers`, Monitor/Rebalance
--   `rebalance_hash`, and Monitor/Round one round of the loop in `initialize_monitor`.
-- - Start: `initialize_balancer`, `initialize_fds` and `initialize_sessions` of src/init.c.
-- - Admin: `set_subject` of src/admin.c and the commands on servers (`standby`, `delete`, `maxl`,
--   `maxc`, `enable`, `disable` and `reset`); the globals `readonly`, `subject` and `subject_count`
--   are the record `Admin`. Admin/Console has the other globals, with `errno`, and the ways a line of
--   input can end; Admin/Settings the commands on settings and `create`; Admin/Prompt the
--   `command_prompt`, with the words of a line, the table of commands and the session; Admin/Scan
--   the scan for instances and the connection to the shared memory; Admin/Filled the array of
--   subjects below its count, and Admin/Steady what the commands keep.
-- - Config: src/config.c. Config has the state and the outcomes of `parse_config_file`, Config/Trim
--   `trim_white_space`, Config/Server the directives of a server's section, Config/Settings those of
--   the balancer, Config/File the loops over the lines, also that of `initialize_logging`
--   (src/init.c). Config/Range has what every file keeps, Config/Written the section that describes
--   a server and how it is read back.
-- - Start/Launching: the order of `main` (src/octopus.c) from the defaults to the main loop.
-- - Log: `write_log` of src/logging.c, as the list of what the process does (`Deed`), and with
--   Log/Exit the fatal messages and `clean_exit` and `signal_handler` of src/signals.c.
-- - Text: the C string functions that the configuration and the administration call (`strtok`,
--   `strtol`, `fgets`, prefix comparison), from their documented behaviour.
-- - Base: names shared by all, tests on numbers, integers, lists, arrays, loops over an index.
--
-- How state and operations correspond. A C function that changes globals is a function from the
-- state before to the state after; `Session × Process` is what a handler works on, the session
-- apart from the process around it, and `World` has all the sessions. A pointer to a session or a
-- server is its index, NULL and the descriptor -1 are `none`. The results of the system calls are
-- arguments (`MemberDial`, `CloneDial`, `ReadResult`, `WriteResult`, `Accepted`, `Ready`), so that a
-- theorem holds for every answer, unless a hypothesis names the promise of the call that it rests
-- on. A crash of the C program is an outcome of its own: `none`, `fault`, `crash`, `overrun`,
-- `null_result`, `division_by_zero` or `out_of_bounds`.
--
-- Numbers. `int` counters are integers without a bound; the `unsigned short` counter of hash slots,
-- the ports, the traffic counters and the hash wrap around at their width. `float` values are the
-- bit patterns of IEEE numbers with the operations as a parameter (`Floats`). `qsort` is a parameter
-- too, and so is what `memcpy` does with areas that overlap (`Overlap`), as the handlers that write
-- call it. There is no fuel: the loops are structural, over a list or over an index below the count that
-- the code reads.
--
-- Not modelled: in src/admin.c the options of `main` and the printed text (a session ends where a
-- scan begins); the system calls of the start-up (src/init.c). The
-- calls of `write_log` are left out of the other files but where they end the process, and so is
-- concurrent writing of the shared memory by the monitor and the administration between two reads of
-- one handler; a session of the administration is modelled while no other process writes.
pub mod Base
pub mod Admin
pub mod Text
pub mod Config
pub mod Balancer
pub mod Select
pub mod Session
pub mod Connect
pub mod Traffic
pub mod Log
pub mod Loop
pub mod Monitor
pub mod Start
