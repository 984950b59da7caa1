-- ===== src/Lib.antt =====
-- JABI turns a microcontroller into a USB and UART bridge to its own peripherals: a host sends a
-- request packet, the firmware runs one function of one peripheral and sends a response packet.
-- This library models the firmware, which is written in C, and the client library in C++ that a
-- host calls it with, and proves what their parts promise, alone and joined together.
--
-- The parts, the file of each and the code that it follows:
-- - Packet: request and response packets, include/jabi/interfaces.h and
--   firmware/src/interfaces/common.c (iface_req_to_le, iface_resp_to_le). A packed struct is the
--   list of its bytes. Bytes states what Zephyr's sys_le16_to_cpu and its kin are documented to
--   do, over the CPU's own byte order; Bytes.Orders has the two real orders.
-- - Usb: firmware/src/interfaces/usb.c. usb_get_req reads the transfers that the host sends, as a
--   list of byte lists and failures; usb_send_resp gives the bytes of its transfer. Usb.Recv reads
--   a transfer as the protocol does, on its bytes alone, and compares. Usb.Descriptors has the
--   interface's descriptors and the handlers of control requests of the same file.
-- - UartIface: firmware/src/interfaces/uart.c, one instance of CREATE_UART_API. What happens while
--   the thread of the interface waits is a list of events: a turn of the interrupt handler's loop
--   with what it finds, a turn of the thread, or the end of TIMEOUT. get_byte and wait_sent run
--   through the events; Bytewise, Recv, Send, Total and Resync say what read, get_req and send_resp
--   make of them.
-- - Periph: include/jabi/error.h and include/jabi/peripherals.h: the error codes, the entry of a
--   peripheral and the type of its functions, from a state, an index and the request array to the
--   new state and what is written to the response.
-- - Dispatch: firmware/src/main.c, one turn of the loop of process_interface, for any tables of
--   peripherals. Serve puts it between the get_req and the send_resp of USB, UartIface.Serve
--   between those of the UART.
-- - Locks: firmware/src/main.c, the loops of main that give every instance the lock of its device.
--   Threads: the threads of process_interface, which take and give these locks in any order, by a
--   table of them; Threads.Devices takes the table that Locks makes.
-- - Can, Spi, I2c, Gpio, Pwm, Adc, Dac, Uart, Lin, Metadata: the files of these names under
--   firmware/src/peripherals. Each function of C is a function here, from the device and the
--   request to the device and a Reply.
-- - Board: firmware/src/peripherals/common.c, the table of all of these over the state of a whole
--   board, in which each function changes the part of its own peripheral.
-- - Client: clients/cpp/libjabi/byteorder.h and the header conversions of interfaces/interface.h.
--   Client.Interface is what a Device needs of its interface, and the ways a call throws;
--   Client.Usb and Client.Serial are send_request of interfaces/usb.cpp and interfaces/uart.cpp,
--   Client.Connect what list_devices and get_device do with an open interface, Client.Search the
--   rest of list_devices, from the list of libusb's devices on. Client.Metadata,
--   Can, I2c, Gpio, Spi, Uart and Lin are the files of these names under
--   clients/cpp/libjabi/peripherals, Client.Analog is adc.cpp, dac.cpp and pwm.cpp.
-- - Client.Link joins interfaces/usb.cpp of the client to the firmware's turn over USB: the packets
--   of the client's transfers are gathered into one transfer of the firmware, which a short packet
--   or a full request structure closes, so a request of whole packets waits for the empty one
--   behind it. Client.Cable joins interfaces/uart.cpp to the turn over the UART. Client.Remote takes a whole board
--   for that firmware, Client.Remote.Spi a sequence of calls to one of its devices, and
--   Client.Search.Attached a bus with it on.
-- - Kernel: the semaphores and message queues of Zephyr, as records of operations and laws.
--   Kernel.Models shows that a counter and a list satisfy them.
-- - Prelude holds what all of them share; Tests applies the theorems to concrete devices.
--
-- How they interact: a function of the client's Device builds a request and hands it to
-- send_request of its interface, whose transfer is the one that usb_get_req receives. That hands a
-- Req to process_request, which looks the function up in the tables, runs it if the device's lock
-- was taken, and hands a Resp to usb_send_resp, whose transfer the client checks and decodes. The
-- tables are parameters of process_request; what it needs of a function is `FitsHandler`, and the
-- theorems named after each table provide it. Board fills the tables in.
--
-- Zephyr's drivers, kernel and byte-order functions are parameters (SpiEnv, CanDriver, I2cEnv,
-- GpioEnv, PwmEnv, AdcEnv, DacEnv, UartEnv, LinDriver, IfaceEnv, SemApi, MsgqApi, ByteOrder), and
-- so are the client's libusb, serial port and clock (UsbHost, Libusb, Port), with their
-- documented behaviour as fields or, where a single theorem relies on it, as a hypothesis
-- (Reports for the CAN callbacks, ComparesPointers for the SPI driver, Moves for a serial port,
-- Attached for the bus that a board is on). Numbers are natural numbers; a field that the code
-- stores in 8, 16 or 32 bits is reduced where the code may overflow it, and the int arithmetic of
-- dac.c is written out. A LIN command that the driver accepts ends with its callback before the
-- function goes on, since the function waits for it.
--
-- Whether k_sem_take gets a device's lock in time is an argument of a turn and so of every call of
-- the client, `taken`, and the theorems on calls say what either outcome gives. Where the client
-- connects to a board or searches for one, the lock of its metadata peripheral is taken to be free.
-- The model does not define what C leaves undefined: a callback of LIN that would reach behind the
-- tables of its device has no result, and a packet size of 0, which the client divides by, throws
-- a failure of its own.
--
-- Most loops recurse on lists and need no fuel: usb_get_req recurses on the transfers still to
-- come, and waits at their end. The loop of uart_get_req runs on one turn more than there are
-- events, which is enough, as each turn uses up an event. The loops of Client.Serial run on fuel,
-- since write and read may move no byte at all. On a port where each call moves a byte, one turn
-- for each byte is enough; the largest request and response together, headers included, bound all
-- of them.
--
-- Not modelled: in the firmware, logging, the init functions of the interfaces, which set a
-- callback or do nothing, and the tables that hand the USB descriptors and handlers to Zephyr. A
-- peripheral function's writes into its own request array are left out, since the next request
-- overwrites them. In the client in C++, the set-up of a serial port, the code for Windows and the
-- printing of messages. The clients in Rust and Python, the gRPC server, the examples, the boards
-- and the device-tree bindings are other programs or data.
pub mod Prelude
pub mod Bytes
pub mod Packet
pub mod Usb
pub mod Locks
pub mod Kernel
pub mod Threads
pub mod Periph
pub mod Can
pub mod Spi
pub mod Metadata
pub mod I2c
pub mod Dispatch
pub mod Gpio
pub mod Pwm
pub mod Adc
pub mod Serve
pub mod Uart
pub mod Tests
pub mod Client
pub mod Lin
pub mod Dac
pub mod Board
pub mod UartIface
