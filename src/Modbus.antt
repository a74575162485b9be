-- ===== src/Modbus.antt =====
-- ModbusTcpClient.h and ModbusTcpClient.cpp: the frames in Frame, the sockets in Tcp, the state machine
-- in Client.
pub mod Frame
pub mod Tcp
pub mod Client
