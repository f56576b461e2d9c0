-- ===== src/Lib.antt =====
-- Airfrog is a wireless debug probe: it drives the Serial Wire Debug (SWD) lines of an ARM target and
-- serves a binary API and a REST API over Wi-Fi. This library models its core.
--
-- The parts and the files that model them:
--
-- - airfrog-bin/src/lib.rs, the binary API: Bin. `Command`, `Speed`, `LineLevel`, `Op` and the errors
--   are data types (Bin/Command, Bin/Speed, Bin/Op, Bin/Error); `Op::recv_cmd` and `Op::async_recv`
--   are Bin/Recv, over an abstract stream (Bin/Reader) for the trait `AsyncReader`. Bin/Format is
--   independent of the code: the byte layout of docs/BINARY-API.md.
-- - airfrog-core/src/arm, the debug registers: Core. A register type is a number below 2 ^ 32 and
--   its getters and setters are masks and shifts of it (Core/Select, Core/CtrlStat, Core/Csw); the
--   core types are Core/Cortex.
-- - airfrog-core/src/stm.rs, rp.rs and lib.rs, the chips: Core/Stm with the flash sectors in
--   Core/Stm/Sectors, Core/Rp, and Core/Mcu. A device ID and an IDCODE are numbers. A function that
--   fills an array returns the entries that it fills.
-- - airfrog-swd/src/protocol.rs, the line protocol: Swd/Wire. A `SwdProtocol` is a record with the
--   speed's delays and the trace of the calls made of the pins and the timer (Swd/Wire/Hal); each
--   method is a function on that state (Swd/Wire/Protocol, Swd/Wire/Reset, Swd/Wire/Read). The line
--   sequences at the head of `reset_sequence_v1` and `reset_sequence_v2` are Swd/Wire/Entry.
--   `calculate_parity` is Swd/Parity.
-- - airfrog-swd/src/interface.rs: `SwdOp` is Swd/Command, and `do_write_op`, `do_read_op` and
--   `do_write_target_sel` are Swd/Transfer. `SwdInterface` is Swd/Interface, over a record of the
--   transfers (`Transport` of Swd/Interface/State) that Swd/Interface/Wired fills with them: register
--   access (Swd/Interface/Access), bulk transfers (Swd/Interface/Bulk), memory (Swd/Interface/Memory),
--   access by address (Swd/Interface/Raw), the resets and the connection to a target
--   (Swd/Interface/Reset), the identification of the MCU (Swd/Interface/Identify), and the speed and
--   raw clocks (Swd/Interface/Line). An awaited call with `?` is a state-passing function into
--   a `Result`; the words that a bulk read stores are part of its result, and so is a panic.
-- - airfrog-swd/src/bin.rs, the binary API server: Swd/Server has `binary_api_handle_op` and the
--   response to an error, and Swd/Server/Session the handshake, the main loop and `serve`, over a
--   record of the socket's calls (`Socket`).
-- - airfrog-swd/src/debug.rs, `DebugInterface`: Swd/Debug/Connect has the connection and the bulk
--   transfers, over `SwdInterface`; Swd/Debug, Swd/Debug/Erase, Swd/Debug/Splice and Swd/Debug/Program
--   have the flash operations, over a record of the calls that they make of it (`TargetMemory`), which
--   `swd_memory` fills.
-- - airfrog-swd/src/lib.rs, `SwdError`: Swd/Error.
-- - airfrog/src/firmware/rtt.rs, the RTT task: its ring of bytes is Rtt/Local, and the control block,
--   the buffers of the target and the commands are Rtt/Task. Rtt/Fetch has its start and its fetch of
--   bytes, over a record of the requests to the target task (`TargetTask`).
-- - airfrog/src/config.rs and flash.rs, the configuration: Config. `Header`, `Config`, `Net` and
--   `Swd` are lists of fields with a layout in bytes (Config/Layout, Config/Net, Config/Partition);
--   Config/Store loads and stores them, Config/Json takes them from the web, and Config/Netmask,
--   Config/Text and Config/Wifi have what the network is told. The flash driver, the checksum and
--   JSON values are parameters.
-- - airfrog/src/target, the task that owns the interface: Target. `Target` with the connection and the
--   last signal to the firmware task is Target/State, the request handler Target/Rest and
--   Target/Requests, and the loop of the task Target/Loop, where a step is what ends the wait.
--   `Command::from_rest` is Target/Api, with paths in Target/Path; words as text are Target/HexText.
--   The requests, the responses and the errors of airfrog/src/error.rs are Target/Types. JSON is the
--   parameter `RestJson`.
-- - airfrog/src/firmware/mod.rs: Firmware has the reader and the writer of the target's memory, over
--   the requests to the target task, which are a parameter.
--
-- A REST request is parsed to a `Command`, which the task carries out on the interface; the task also
-- serves the binary API, and tells the firmware task which MCU it has found.
-- A command of the binary API is parsed to an `Op`; the interface turns it into accesses (`SwdOp`),
-- each of which is a command byte, an acknowledgement and a word on the lines. The result goes back
-- to the client as a response code and, for a read, the words.
--
-- Machine integers are natural numbers: `!x` on a `u32` is `0xffff_ffff - x`, and a value stored in
-- a register is assumed below 2 ^ 32 where a theorem needs that. The target is a parameter: a
-- function from the history of the lines to the level that it drives. The stream under the binary
-- API is a parameter too, with the hypotheses of Bin/Reader. Loops of the code have a fixed number
-- of rounds and recur on the rounds that are left; the retry loop recurs on the retries left. A bulk
-- read of memory takes at least one word in a round, so it recurs on a number of rounds that starts
-- at the number of words, which is enough. The server's main loop is run for a number of rounds; each
-- round takes at least a byte from the client, so that one round more than there are bytes is enough
-- if the reads of arguments, which have no timeout, are answered.
-- The loops that poll the flash of a target are given a number of rounds, and end once the flash is
-- idle or shows an error; a flash that does neither keeps them going, as it does in the code.
-- What a target has answered since the entry to SWD is a parameter of the theorems on resets
-- (Swd/Interface/Reset/Recalls), which Swd/Interface/Logged gives for every transport.
-- The socket and its timeouts are parameters, with the hypotheses of Swd/Server/Session/Ends and
-- Swd/Server/Session/Sends; a read without a timeout may have no answer, which keeps the server
-- waiting. The heap is a parameter too: whether a bulk read's words and response fit into it, and one
-- that does not fit panics; other allocations, of a few words or of what a client has sent, are taken
-- to succeed. A partition that passes its check with a number that no network
-- mode or no speed has is cast to an enum all the same: the start then ends in an outcome of its own,
-- undefined behaviour (`Started`).
--
-- Not modelled: logging and the text of messages, `Display` and serialization, async scheduling,
-- the closing of sockets, the loop of the RTT task, the firmware task and the inspection of firmware,
-- the web pages and the HTTP server, the network code and the build scripts.
pub mod Prelude
pub mod Bin
pub mod Core
pub mod Swd
pub mod Rtt
pub mod Config
pub mod Target
pub mod Firmware
