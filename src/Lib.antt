-- ===== src/Lib.antt =====
-- Models of sysvkit, a toolkit that runs systemd services under System V init: sysvrun starts and
-- monitors a service that is described by a unit file, and systemctl acts on init scripts.
--
-- The parts and the files of the repository that they model:
-- - Base: what the parts share. Boolean tests and lists over native numbers, C strings as lists of
--   bytes (is_digit and is_alpha are those of src/common/timespan.c), decimal numerals, errno values.
-- - Timespan (src/common/timespan.c, include/timespan.h): timespan_from_str and timespan_to_str, with
--   the table of units. Products wrap at 64 bits, as usec_t does. `errno` at the call is an argument.
-- - Strbool (src/common/strbool.c): strings as Booleans.
-- - Strlist (src/common/strlist.c): splitting and joining with a delimiter, and argument vectors. The
--   hash table of strings already seen is the list of them.
-- - Text (src/common/text.c): lines, words and searches. A pointer is the bytes from there on.
-- - Table: the hash tables of fsdyn, as an interface of operations and laws; an association list
--   fills it.
-- - UnitFile (src/common/unit.c) and Environment (src/common/environment.c): units and environments over
--   such tables. A pair that was freed while its element stands in a table is `dangling`; a function
--   that uses it gives `none`.
-- - Systemd (src/sysvrun/systemd.c): the quoting rules, and in Parse the parser of unit files, a line at
--   a time; each line gives what stands behind it.
-- - Sysvinit (src/sysvrun/sysvinit.c, and service_to_byte_array of src/sysvrun/service.c): init scripts
--   with an embedded unit file, read by the line searches of Text.Search and written.
-- - Service (src/sysvrun/service.h, service.c): Settings has service_from_unit_file, over the unit that
--   the parser gives; Convert has service_from_file and what a converted service is read back as;
--   Search has the search for a service's file by its name, with that of systemd.c and sysvinit.c;
--   Control has start, stop, reload, restart and status over an interface to monitor.c, command.c and
--   the system, whose calls change a world.
-- - Command (src/sysvrun/command.c): the command of a service's unit, with its environment and
--   credentials; Exec has the system calls by which it is executed, Pid the process that its PID file
--   names.
-- - Procwatch (src/common/procwatch.c, and the callback and the collection of src/sysvrun/monitor.c):
--   Store has the memory of process structs, the table and the list of ready processes, Operations the
--   operations on them, Events procwatch_ingest. A fault is a run that follows a pointer to no struct.
--   A hash table is its list of elements, in which only the first of a key is seen.
-- - Connector (src/common/cn_proc.c, and procwatch_reconnect): what is taken of the netlink socket, and
--   the flag that tells whether process events are enabled. Procwatch.Events has the events themselves.
-- - Monitor (src/sysvrun/monitor.c): Names has the states' names, Control a session of a control
--   client (monitor_control_socket_ingest), Limit the ring of start times, Watch the inner loops
--   (monitor_watch, monitor_wait), Loop the main loop (monitor_func), Client the other side of the
--   control protocol (monitor_control_get_state, _wait, _stop, _restart) over the replies to its
--   commands, and Exchange the connection that carries these (monitor_control). The main loop calls the inner
--   loops, and each of these serves control clients, whose sessions change the monitor's state; that
--   state is how a stop or restart order reaches the loops.
-- - Systemctl (src/systemctl): Links has service_manip_rl and service_manip of service.c, Commands the
--   commands of start-stop.c, reload.c, status.c, enable-disable.c, show.c and noop.c.
--
-- What the system answers is an argument: each round of a loop takes an event with the results of
-- its calls (poll, read, the clock, the process table, the PID file), a directory is the list of its
-- entries with what fstatat and unlinkat answer for each, and a script is what it exits with for each
-- verb. A loop that the events do not end gives `none`, or `waiting` in Client.
--
-- Fuel: timespan_loop has the length of the text, each pass consumes a byte; emit_units has one more
-- than the table's entries, each pass moves down the table; lines_from, the clients' loop over lines,
-- has the bytes that are left, of which each line takes one at least, as have the line searches;
-- the parser of unit files has the length of the text, of which each line takes a byte. The recursion
-- of service_start has a depth. The loops over a process's children and over the table have the number
-- of elements at their start; the recursion of process_drop_recursive has the number of structs that
-- were ever made, of which each level takes a later one.
--
-- Not modelled: logging, process titles, the set-up of pipes and sockets, forking and executing, the
-- resolution of paths in a child, and the test daemon. The containers of fsdyn and the helpers of
-- unixkit are submodules that are not here.
pub mod Base
pub mod Timespan
pub mod Strbool
pub mod Strlist
pub mod Text
pub mod Table
pub mod UnitFile
pub mod Environment
pub mod Systemd
pub mod Sysvinit
pub mod Service
pub mod Command
pub mod Procwatch
pub mod Connector
pub mod Monitor
pub mod Systemctl
