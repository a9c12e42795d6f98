-- ===== src/Lib.antt =====
-- stdiolink: models and proofs for parts of the C++ sources under src/.
--
-- The program runs device drivers as child processes that exchange lines of JSON with a host, a
-- server that schedules services over them, and the drivers themselves. The library models these parts:
--
-- Modbus: the Modbus RTU drivers. Modbus/Crc is calculateCRC16, which
--   src/drivers/driver_modbusrtu/modbus_rtu_client.cpp and
--   src/drivers/driver_modbusrtu_server/modbus_rtu_server.cpp both hold, and the client's verifyCRC; the
--   server's own test of a frame is in Modbus/Server/Receive. Modbus/Convert is
--   src/drivers/driver_modbusrtu/modbus_types.cpp. Modbus/Client is the client: Frame has buildRequest,
--   readResponse and the parsers, Call the eight calls. Modbus/Server is the server: Area has the units
--   and their tables, Pdu the handlers of the function codes, Request processRtuRequest, Receive
--   onReadyRead and onFrameTimeout. Modbus/Session puts client, network and server together: in Wire a
--   request arrives in pieces at onReadyRead, onFrameTimeout serves it, and what it writes goes back;
--   ReadRegisters, WriteRegisters and ReadBack are calls over that wire, Fragments the client's end.
-- Crane: src/drivers/driver_plc_crane_sim/sim_device.cpp. Device has the registers and timeouts,
--   Coupling and Actions the invariants, Reach the reachable states, Rest the end of the automatic
--   sequence, Writes what each write does.
-- Schedule: src/stdiolink_server/manager/schedule_engine.cpp. Engine has the operations and timeouts,
--   Failures and Crash the restarts of a failing daemon, Limits the conditions of a start, Shutdown what happens
--   while the server shuts down.
-- Jsonl: src/stdiolink/protocol/jsonl_stream_parser.cpp. Framing has the parser of lines, and Chunks
--   the texts that arrive in pieces.
-- Json: the values that QJsonValue holds, and the parsers of
--   src/stdiolink/protocol/jsonl_parser.cpp on them.
-- Meta: src/stdiolink/protocol/meta_validator.cpp. Types has the metadata of meta_types.h, Validator
--   MetaValidator, Defaults DefaultFiller. Values says which values a type and its constraints allow,
--   OfType and Meeting are the verdicts of checkType and checkConstraints on them, Verdicts and Conforms
--   those of the rest; Filled and Filling say what the defaults make of an object, Lookup what each of
--   its keys holds. FieldMeta's description, ui and additionalProperties are left out: neither class
--   reads them. A field's nested fields are of one block of data types with it, and the functions recur
--   on them, so no fuel is needed.
-- Radar: src/drivers/driver_3d_laser_radar/protocol_codec.cpp. Checksum is crc32Stm32, Checksum/Division
--   the polynomial division and Checksum/Hardware the unit that does it; Codec has encodeFrame and
--   tryDecodeFrame, Payloads the payloads; Frames, Accepted and Fields are about what is encoded and what is decoded.
-- Robot: src/drivers/driver_3d_scan_robot/protocol_codec.cpp, whose frames hold no length. Codec has the
--   codec; its loop over lengths has one round for each length from 16 to the buffer's. Frames is
--   about encoded frames.
-- Limaco: src/drivers/driver_limaco_common/limaco_decode.cpp. Decode has the decoders, Layouts the
--   registers that the radars send.
-- Host: src/stdiolink/host/driver.cpp and task.cpp. State has the state of a task, Driver the request
--   and pumpStdout, Task tryNext and waitNext; Answers is the specification of what a request gives,
--   Received what messages leave in a task, Session the runs that implement
--   the specification, Looks what one look at the child finds, Signals the event loop of waitNext and
--   Wait its ends, Invalid the lines that do not parse. The event loop runs over the list of the signals
--   that come; when the list is at its end, the timer expires, or, without one, the call waits on.
--
-- Bytes and words are native numbers, with `% 2 ^ w` where the source narrows; signed integers are
-- Prelude/Int. The fuel of the server's search for frames is the number of bytes in the buffer, which
-- is enough because every round takes one, and the loop that takes lines from a parser has one round
-- more than bytes. The client's loop runs over the list of what each wait for data brought. The class
-- members are the fields of a record, and every method that changes them returns the new record.
--
-- QDataStream, whether a service's process can be started, the socket and the network, the bit
-- patterns of floating-point numbers and their division are parameters.
-- Not modelled: sockets, the operating system's processes (the host's model takes what each look at the
-- child finds), JSON text, the HTTP server, the JavaScript engine, the bindings and command handlers of
-- the drivers, and the managers of the server's instances and files.
pub mod Prelude
pub mod Modbus
pub mod Crane
pub mod Schedule
pub mod Jsonl
pub mod Json
pub mod Meta
pub mod Radar
pub mod Robot
pub mod Limaco
pub mod Host
