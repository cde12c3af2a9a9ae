-- ===== src/Lib.antt =====
-- The tools of this repository report measurements to OML. This library models its tools:
-- wattsup/wattsup.c, the controller of a Watts Up? power meter, collectd/write_oml/write_oml.c,
-- which passes the values of collectd on to OML, trace/trace.c, which reports captured packets,
-- ripwavemon/ripwavemon.c and wpamon/wpamon.c, the monitors of a modem and of a wireless
-- supplicant, nmetrics/nmetrics.c and gpslogger/gpslogger.c, the metadata that every tool injects,
-- and the core of the traffic generator otg2 (otg2/lib); and it proves what these parts do. The
-- tools are programs of their own; they share the metadata and the idiom of C only, and otg2 is
-- built of components: a generator makes packets, a stream numbers them and hands them to a port,
-- which sends them to the port of a receiver.
--
-- Parts and files:
-- - Clib: what the code uses of C. A run (Clib.Run) is a value or undefined behaviour (`fault`: an
--   access out of bounds, a null pointer read); texts are lists of bytes, ended by a NUL inside a
--   buffer (Clib.Text); Clib.Number has strtol, strtoul, atoi and the decimal formats of printf.
-- - Wattsup.Packet: `struct wu_packet`. A `char *` is null, an offset into the packet's own
--   buffer, or a text elsewhere.
-- - Wattsup.State: the static variables, the world that answers the system calls (by the number of
--   the call) and the actions of the program, in their order. A program takes a state and returns
--   a value and a state, or faults.
-- - Wattsup.Command, Wattsup.Parse: `wu_write` up to its call of `write`, and `parse_packet`, both
--   in place on the buffer. Wattsup.Parse.Spec says what a text means without buffer or pointers;
--   Wattsup.Wire joins the two.
-- - Wattsup.Device: `wu_write`, `wu_read`, `wu_start_log`, `wu_clear`. Wattsup.ReadData:
--   `wu_stop_log` and the loop of `wu_read_data`, with its retries and its reset of the device.
-- - Wattsup.Print, Wattsup.Report: the output of records, and their injection into OML.
-- - Wattsup.Fields: the table `wu_fields` and the columns that are enabled.
-- - Wattsup.Options, Wattsup.Show, Wattsup.Store: the table `wu_options` and its methods.
-- - Wattsup.Open: `open_device`. Wattsup.Main: `parse_args` and `main`.
-- - Collectd.Session: the session of write_oml.c and its measurement points; Collectd.Write:
--   `oml_write`; Collectd.Config: `oml_config`, `oml_init` and `oml_cleanup`. A string is
--   a text of the program or a block of the heap, which strncpy fills byte by byte. The constant DATA_MAX_NAME_LEN of collectd is an
--   argument.
-- - Nmetrics: `run` and `main` of nmetrics.c. Gpslogger: `log_fix`, `conditionally_log_fix`,
--   `process`, `socket_mainloop` and `main` of gpslogger.c.
-- - Metadata: `oml_inject_metadata`, of which every tool has a copy.
-- - Clib.Memory, Clib.Words, Clib.Tokens: bytes overwritten in place, words in the byte order of
--   the host (htons, htonl, `otg_htonll` of otg2/lib/otg2/compat.h), and strtok_r.
-- - Otg.Packet: the buffer, the stamps and the fields of a packet (otg2/lib/core/packet.cpp).
--   Otg.Udp: `sendPacket` and `nextPacket` of otg2/lib/port/udp_outport.cpp and udp_inport.cpp;
--   Otg.Socket: their `init`, over otg2/lib/port/socket.cpp.
-- - Otg.Address, Otg.Clock: otg2/lib/core/address.cpp and unixtime.cpp. Otg.Generator: the
--   generators of otg2/lib/generator, at a constant rate and in bursts, and their factory.
-- - Otg.Stream: the loop `_run` of otg2/lib/core/stream.cpp. What it needs of a generator and of a
--   sender is a record of operations, an argument of the loop; Otg.Stream.OverUdp fills it with
--   the UDP port, and Otg.Stream.Delivery follows a stream to the port that receives it.
-- - Otg.Application: phase 1 of the options, `run` and the runtime commands of
--   otg2/lib/app/application.cpp, and the factories of ports. Otg.Component: the tables of options
--   for popt, of otg2/lib/core/component.cpp and of the programs otg2 and otr2 (otg2/lib/app).
-- - Trace.Headers: the walk over the headers of an IPv6 packet. Trace.Rows: the rows that are
--   injected for each layer. Trace.Packet: `per_packet`, and Trace.Packet.Kinds, which
--   says by layers what rows a packet has. Trace.Main: `run` and `main` of trace.c.
-- - Wpamon: `main` of wpamon.c. Ripwavemon: the report, `receive_reports`, the preparations and
--   `main` of ripwavemon.c.
-- - Tests: the theorems at concrete inputs.
--
-- Bounds: `unsigned int` is a word below 2 ^ 32; `strtol` clamps at the bounds of a 64-bit `long`.
-- The loop of `wu_read_data` takes fuel, one unit for each test of `stop_loop`; the number of
-- tests up to the one that finds it set, plus one, is enough. The number of records counted in
-- that loop and the number of retries are not wrapped. `run` of nmetrics.c takes fuel for its
-- rounds, one more than those before the signal; `socket_mainloop` is a recursion on the rounds to
-- come. The loop of a stream takes fuel, one more than the rounds in which the stream is active.
-- The walk over IPv6 headers takes a round for every 8 bytes of the capture and one more, which is
-- enough where no length wraps. Sizes of packets in otg2 are not negative, and its times are whole
-- microseconds, or rounded to the unit given at the definition.
--
-- Not modelled: the diagnostics (`dbg`, `err`, `perr`, `dump_packet`, the logging functions), the
-- text of the help, which is one action, `o_log_collectd`, and the locks of write_oml.c. In otg2
-- what popt makes of the second phase of the options, the help, the null port, the random
-- variables and the two functions `main`. System calls, popt, libtrace, the calls of OML and
-- random draws are other code: what they answer is an argument of the definitions. A character
-- that is made a command is its byte, with no sign. A double is its 64-bit pattern in wattsup.c
-- and write_oml.c, and what the code computes with doubles there is given by the world, as is
-- `%f`. File descriptors are not told apart, `getopt_long` is the list of its returns. The
-- kernel's answers to `open_device` about a device node are given for each working directory, and
-- those that the code ignores, of fchdir, chdir and close, are arguments too.
pub mod Common
pub mod Clib
pub mod Collectd
pub mod Gpslogger
pub mod Metadata
pub mod Nmetrics
pub mod Otg
pub mod Ripwavemon
pub mod Trace
pub mod Wattsup
pub mod Wpamon
pub mod Tests
