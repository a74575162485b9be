-- ===== src/Lib.antt =====
-- Verification of the smart meter reader: an ESP32 program that reads the telegrams of an electricity meter,
-- keeps the current of a car charger within what the fuse of the house leaves, and shows its state with a
-- light.
--
-- The parts and their files, with paths from the root of the repository:
-- - Calendar (sm_common.h, sm_common.c): dates and timestamps. `year2days`, `month2days` and their inverses
--   have the names of the C functions; an `int`, an `int32_t` and the conversion of the days of a timestamp
--   to `int32_t` are integers without bounds. Up to the end of year 65535, the last that the `uint16_t` of the
--   year holds, no value leaves its type, and the theorems about them stop there; `uint8_t` and `uint16_t`
--   fields wrap. The loop of
--   `inv_year2days` runs on fuel that `enough` gives, and its theorem shows that it is enough.
-- - Meter/Tokenizer (sm_parser.h, sm_parser.c): the state machine over characters, with its arrays of 31 and
--   32 bytes as lists. Meter/Numbers: the readers of numbers, `parse_flt` with the bit patterns of `int64_t`
--   and with fuel one larger than the text, since each round that does not stay for ever reads a character.
--   Meter/Parser: the handlers, whose work fields are the record `Meas`, and the state machine over tokens.
--   The frame callback is a function on a state of the caller. Meter/Values: the frame. Meter/Parser/Words,
--   Lines and Footer are the lemmas on the parts of a telegram, and Telegram takes them together.
-- - Modbus/Frame, Modbus/Tcp, Modbus/Client (ModbusTcpClient.h, ModbusTcpClient.cpp): the bytes of a request,
--   the mapping of socket errors, and the state machine of the client. What the clock and lwIP answer during
--   a call is the record `Env`. The callback and the closing of descriptors are events, in order.
-- - Charger (ChargeController.h, ChargeController.cpp): the state machine that polls the charger, and the
--   limit. What `ModbusTcpClient::send_request` answers is an argument.
-- - Hmi (Hmi.h, Hmi.cpp): the status light, with the level of its pin as a field.
-- - NetworkLog (NetworkLog.h, NetworkLog.cpp): the buffer of the log, with the frames that it sends. The loop of
--   `write` has as much fuel as the buffer has bytes, since each round copies one at least.
-- - SmartMeter (SmartMeter.h, SmartMeter.cpp): the meter behind the serial line, with the parser inside it.
--   What `_read` gives is an argument, and the calls of the callbacks are events.
-- - ConnectionManager (ConnectionManager.h, ConnectionManager.cpp): the state machine around the WiFi library,
--   whose answers are arguments and whose calls are events.
-- - App (smartmeterreader.ino): the global objects, `setup` and `loop`, and the callbacks between the objects.
--   A component collects the calls of its callbacks, and App makes them, in order, once the component's call
--   has returned; no callback changes the component that calls it, except that a request which ends changes
--   the charge controller. App/Format: the text of a frame, where `snprintf` is a parameter.
-- - Logging (util.h, util.cpp): log messages as templates with arguments, the dump of a buffer, and the
--   printing of numbers. The text that `Print` makes of a number is a parameter. `none` is behaviour that C++
--   leaves undefined. The digits of an `int16_t` are at most five, which is the fuel of their loop.
-- - Prelude: what these share. Numbers are native, machine words wrap where the code relies on it, signed
--   integers are in Prelude/Int. In results of type Option, `none` is a call that never returns, or that
--   dereferences a null pointer.
-- - Tests: the theorems and some functions at concrete inputs.
--
-- The parts meet as in smartmeterreader.ino: the parser's frames are what the charge controller takes as
-- measurements, whose requests go to the Modbus client, whose answers come back through the callback; the
-- connections of the three go to the status light. App/Shows, App/Dispatch, App/Turns and App/Requests follow
-- the parts of `loop`, and App/Running takes them together; App/Waiting, App/Exchange and App/Handshake do so for the
-- requests between the controller and the client. App/Wire is about the limit in the client's frame.
--
-- Not modelled: the calls of `log` in the components, which do not change their state: as Config.h has it,
-- they go to the serial line and none to the network log; and the programs under utils, which only print
-- what they receive.
pub mod Prelude
pub mod Hmi
pub mod Calendar
pub mod Meter
pub mod Modbus
pub mod Charger
pub mod NetworkLog
pub mod SmartMeter
pub mod ConnectionManager
pub mod App
pub mod Logging
pub mod Tests
