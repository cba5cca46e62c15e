-- ===== src/Lib.antt =====
-- A verification library for the hanport data parser, a C++ program that reads the telegrams of
-- an electricity meter from a serial port and offers the readings over Modbus and MQTT.
--
-- Parts, in the order in which data flows:
-- - Serial: `hpSerialRead::hpRead` (src/hpSerialRead.cpp), the search for telegrams in the bytes
--   of the port. The results of `read` are a list, and the loop is a recursion on it.
--   Serial.Port: the opening and the flags of the port, over the parameters `Flags` and `Device`.
-- - Validator: `HanportMessageValidator` (src/hpMessageValidator.cpp), which cuts a telegram at
--   `!`, compares two checksums and splits the data into lines.
-- - Parser: `hpDataParser` (src/hpDataParser.cpp), which reads lines into an `hpData` object.
-- - Data: `hpData` (include/hpData.hpp). Floats: the type `float`, a parameter of the model.
-- - Modbus: `hpModbuss` (src/hpModbuss.cpp), the registers of the server, its start and stop.
--   Modbus.Server: the thread that serves clients, over the parameter `System`. Modbus.Threads:
--   this thread and the program in small steps, in any interleaving. Modbus.Spec: the object as
--   files of registers.
-- - Mqtt: `HpMqttPub` (src/hpMqttPub.cpp), the topics and the publishing of the readings. The
--   client of the Paho library is the parameter `Client`.
-- - Config: `Config` (src/config.cpp), the INI file of the settings.
-- - Main: `main` (src/main.cpp). A round of its loop counts the heartbeat, takes a telegram from
--   Serial, has Validator and Parser read it into the `hpData` object, and gives the object to
--   Mqtt and Modbus. `run` takes a number of rounds, of which any may be given. Main.Startup:
--   from the arguments to the loop. Main.Connected and Main.Published: what the MQTT client is
--   asked, and what reaches the broker, by a client that keeps a log.
-- - Logger: `hpLogger` (src/hpLogger.cpp), which the program does not use.
-- - Base and Bits: shared names, byte strings, `std::stoi`, results, and the laws of bit
--   operations.
-- - Tests: runs and instances of the theorems.
--
-- Not modelled: what `main` logs and prints; the end of `main` behind its loop, which has no end.
-- The serial port, the sockets of the server, libmodbus and the client of Paho are parameters:
-- records of operations, with what is relied on as laws. A method of the Modbus object is one step
-- in Modbus, and the thread takes no mutex. The rounds of Main leave the thread out, so that what
-- they say of the mapping holds as long as no client writes registers. A round of the thread is a
-- step in Modbus.Server, and a descriptor of its loop in Modbus.Threads, where a write of the
-- program is a step for each register and `stop` is six; a call into libmodbus stays one step.
--
-- Fuel: the inner loop of the server's thread, whose end changes while it runs, has fuel for all
-- 1024 descriptors of an `fd_set` and one more, which is enough since no descriptor above the
-- last is served. All other loops are recursions on their data.
pub mod Base
pub mod Bits
pub mod Floats
pub mod Config
pub mod Data
pub mod Logger
pub mod Main
pub mod Modbus
pub mod Mqtt
pub mod Parser
pub mod Serial
pub mod Validator
mod Tests
