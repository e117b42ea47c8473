-- ===== src/Lib.antt =====
-- ksg_canbus_rpi_sniffer: a man in the middle between a car's system and its on-board computer. A
-- Raspberry Pi reads the frames of the two CAN buses, filters and forwards them, and is controlled
-- by a client over UDP.
--
-- The parts, and the files that model them:
--
-- Filter is FilterEngine of src/sniffer/Sniffer.cpp. Rule is one rule (struct CanFilterRule of
-- include/communication/CanbusProtocol.h) and what it does to one frame, Engine is loadRules and
-- process with their static tables as the record Engine. Spec is the independent description: the
-- first rule of the id that applies decides. std::sort is a parameter `sort` with the contract
-- IsSort, sorted by id and a permutation; Sorts has two functions that meet it. `none` is an access
-- outside the rule array or the frame's data.
-- Protocol: Message is the layout of ExternalMessageV1, little-endian and packed, and the client's
-- sendRawCommand (external_server/src/sniffer_client.cpp); Udp and Tcp are processPacket and
-- processBuffer of src/communication/UdpCanbusCommunication.cpp and TcpCanbusCommunication.cpp. A
-- packet is the memory from its first byte on and its length; a result lists the calls of the
-- listeners, in order. A time is the bit pattern of the double that carries it. Link is what the two
-- classes hand on; Safety, RoundTrip, Stream and Agree are the properties.
-- Cache is CacheManager of include/base/CommunicationObj.hpp. Ring is its state and the atomic steps
-- of its two threads, Buffer the bounded buffer that it implements; an interleaving is a list of
-- steps. The loop of `process` is not a loop here: each of its critical sections is a step.
-- Sniffer is the class Sniffer of src/sniffer/Sniffer.cpp. State has its members and the calls that it
-- makes of other objects, Frames is handleCanData, Commands onCommandReceived and
-- sendSystemResponse, Watchdog watchdogLoop and resetToDefault; Buffers, Forwarding, Kept, KeepAlive, Served,
-- Timeout and Race are the properties. A handler takes the readings of the
-- clock as arguments and returns the new state with the calls it makes, in order.
-- Client: Receive is the receiving side of SnifferClient (external_server/src/sniffer_client.cpp) and a
-- round of its keepAliveLoop, Api its life and the C functions that send, Queue what the receiver puts
-- into the queue, Handles the C functions on a handle (external_server/include/sniffer_client.h) and
-- the Android binding on them, Reading what they give out and the threads of a client's whole life;
-- Sync, Injection and Filters what a message of the client does in the sniffer, Reports what a message of
-- the sniffer does in the client.
-- Connection is the rest of CommunicationObj: Life is its state, with the three std::threads, its calls
-- and the rounds of its threads, Reconnect the supervisor, Reports what the listener hears. `none` is
-- the end of the program by std::terminate. Shutdown is stop against the worker and the RX thread, one
-- access of a lock or a flag at a time; a condition variable's notification wakes a thread that is
-- blocked and no other, and a wait may end by itself. Hang, Ends and Waits are the properties.
-- Gateway puts the client's link together: UDP socket, cache, processPacket, the sniffer's handlers, and
-- their messages back to the socket; Queue is what a burst of datagrams leaves, Answers whom the
-- sniffer answers, RoundTrip a keep-alive on its way there and back.
-- Sockets: Descriptor is the member m_socketFd of UdpCommunication, TcpCommunication
-- (src/communication) and ObdCanbusCommunication (src/canbus_communication) and the calls that open and
-- close it; Udp and Transfer are their read and write functions. What the operating system answers is an
-- argument. Leaks and Replies are the properties.
-- Params is include/utils/Params.hpp: Store is the table in memory, File its text on disk, with `none`
-- for a file that is not there. A text is the list of its bytes without the NUL (Text).
-- Service is src/core/MainService.cpp: Config the configuration of a bus (and the functions of Sniffer.cpp
-- that take its text apart again), Usb and Processes the watchdog of a USB adapter, Main the rounds of
-- run and the commands that reach the service. A watchdog's scan of /proc is one call `kill_existing_slcand`
-- in its list of calls, and the function of Processes by itself. Threads counts the watchdogs' threads.
-- Leds is include/utils/LedControllerUtil.hpp, and Sniffer's use of it for the status of its connections.
-- Status is include/utils/StatusManager.hpp, the text that a keep-alive carries to the client; the order
-- in which its unordered_map is walked through is a parameter. Directory is the listing of the USB
-- devices with its hidden entries, Texts what the map has for one key; Display of Leds is the way of a
-- connection's reports into that text.
-- Program is src/main.cpp with the thread that runs MainService::run: the steps of the two between
-- their accesses of the flags. Hang and Exit are the properties.
-- Emulator is emulators/: CanUtils, CarSystem, Broadcast and Simulation are the car system, CarComputer and
-- Control the car computer; Diagnostics, Answers and Lights are the properties. The arithmetic of
-- doubles is the record Floats, and IsExact the laws of it that a theorem uses.
--
-- A frame read by a CacheManager comes to processPacket or to handleCanData; processPacket calls
-- onCommandReceived with the payload, which loads the filter that handleCanData uses. The names are
-- the source's, in snake case.
--
-- Bounds: a byte is a number; the fields of a message are as wide as their encoding, the counters
-- of the filter table wrap at 8 bits, and a payload's length at 32 bits in sendRawCommand. Sizes
-- (size_t) and clock readings are not bounded. No definition uses fuel: each recursion is on a list
-- or on the number of rules left. A number of steps that is enough for a thread to end is part of the
-- theorem that says so.
--
-- Not modelled: the bodies of the system calls; what std::threads do inside one call of another thread,
-- except where Cache, Sniffer, Connection.Shutdown and Program say so; the clock, printing and the
-- lengths of sleeps; the user interfaces in Java and Python, and the test programs.
pub mod Cache
pub mod Client
pub mod Connection
pub mod Emulator
pub mod Filter
pub mod Gateway
pub mod Leds
pub mod Params
pub mod Prelude
pub mod Program
pub mod Protocol
pub mod Service
pub mod Sniffer
pub mod Sockets
pub mod Status
pub mod Text
