-- ===== src/Lib.antt =====
-- Shirokumakun-Matter: the firmware of a Matter bridge that drives a Hitachi air conditioner
-- over infrared.
--
-- The program's parts and how they interact. A Matter client writes attributes of the
-- Thermostat and FanControl clusters; the SDK calls MatterPostAttributeChangeCallback
-- (src/zcl_callbacks.cpp), which reads the attributes back, builds an AcState, drops it if it
-- was the last one sent, encodes it with ac_encode_pulses (src/ir_protocol.cpp) and hands the
-- pulses to the driver (src/ir_driver.cpp). The driver switches a 38 kHz carrier through the
-- PWM and listens after each attempt for the beep of the air conditioner
-- (src/pdm_manager.cpp), and tries again until it hears one. Beside it a SCD40 sensor is
-- polled over I2C and its readings are published as attributes (src/scd40_manager.cpp), and
-- the commissioning credentials of the device are derived from its factory id
-- (src/hw_pairing.cpp).
--
-- Which file models which part. The C functions and constants keep their names; a method keeps
-- its own name in snake case.
--
-- Common and the files under it: numbers, lists, bits of a byte, words of a width, and signed
-- integers, as the parts share them.
--
-- IrProtocol: src/ir_protocol.cpp and ir_protocol.h. AcState, the command bytes, and the
-- encoder, which writes into the caller's array through a Cursor; a write past the end is
-- none. Under it: the writes into the array (Buffer), the pulses of a frame (Waveform), a
-- receiver of the protocol written for the purpose (Receiver, RoundTrip, Transfer) and the
-- length of a frame in time (Timing).
--
-- ZclCallbacks: src/zcl_callbacks.cpp. The attribute store of the SDK is an argument: what
-- each read returns, or that it fails. The state keeps the static variables, and a callback
-- returns the call of ir_dispatch_command it makes, if any. Under it: the state built from the
-- attributes (Desired) against tables (Requested), one callback (Send), a whole run (Events)
-- and what happens before zcl_callbacks_ready (Quiet).
--
-- IrDriver: src/ir_driver.cpp. The PWM is the duty word and a trace of its loads and of the
-- waits between them; a load takes the 26 microseconds that the comments of
-- src/ir_protocol.cpp count for it. The microphone around an attempt is an argument of
-- ir_send_command, which IrLink fills. Under it: what a receiver measures of the carrier
-- (Carrier), the retries (Retry), and the dispatch thread (Dispatch): a step relation whose
-- steps are the statements of ir_dispatch_command and ir_dispatch_thread_fn, over the buffers,
-- the mutex and the semaphore, with any number of callers. Below that: the record of commands
-- (History), the copies (Copy), the invariant (Invariant, Sections, Sizes, Orders), and what
-- follows from it (Delivery, Progress).
--
-- PdmManager: src/pdm_manager.cpp. Floating-point numbers and the FFT are arguments. The
-- driver of the microphone, the work item and the window of collect_ack are steps on one
-- state, and a window is an explicit sequence of what the interrupt and the work queue do in
-- it. Under it: the detector (Detector), the wait in a window (Wait), the windows (Capture), a
-- verbose stream across a window (Verbose), a threshold that nothing compares with
-- (Unordered), that no read is out of range (Total), what a window leaves as it was (Tuned),
-- and the persisted threshold with the initialisation (Settings).
--
-- Scd40Manager: src/scd40_manager.cpp. The two functions of the I2C driver are arguments, on a
-- bus of any type. Under it: the checksum (Crc), the conversions (Convert), the poll (Poll),
-- and the initialisation with the timer and the work item (Start).
--
-- HwPairing: src/hw_pairing.cpp. The SDK's verifier computation is an argument. Under it: the
-- hash (Fnv), the passcode (Passcode) and the data provider (Credentials).
--
-- IdentifyLed: src/identify_led.cpp. The two timers, the work item and the pin; what the
-- cluster, the shell, the timers and the work queue do are events in any order. Under it:
-- Blink, and the interleaving of the functions' statements (Threads, with AutoStop and
-- TurnOff).
--
-- IrLink: ir_send_command of src/ir_driver.cpp on the PWM and on the microphone of
-- src/pdm_manager.cpp. What other threads and the interrupt do to the microphone in each
-- attempt, and what the driver answers, is a function of the attempt's number, which is an
-- argument. Under it: one attempt (Attempts), a whole call (Sent), what the air conditioner
-- reads from the light (Read), and the windows that are heard or not (Windows, Heard).
--
-- Delivery: the Matter thread, the shell's thread and the dispatch thread together, from a
-- callback of src/zcl_callbacks.cpp or ac off of src/shell_commands.cpp to the commands that
-- src/ir_driver.cpp sends. Under it: what the callers ask for (Callers), the invariant (Kept),
-- what holds at rest (Rest), that rest is reached (Settled), and what the last call of
-- ir_send_command tells the air conditioner (Sending).
--
-- ShellCommands: src/shell_commands.cpp. What a command prints and returns is a value. Under
-- it: ac off beside the attribute callbacks (Off), ac scd (Reading), ac cfar and ac threshold
-- (Tuning), the drawing of the QR code, whose size and modules are arguments (QrCode), and its
-- picture (QrPicture), and the commands under matter and reboot (Pairing).
--
-- AppTask: src/app_task.cpp and src/main.cpp. The calls of AppTask::Init in order, with what
-- the guarded ones return and the attributes that the SDK restores as arguments. Under it:
-- StartUp.
--
-- DataModel: the tables of src/zap-generated/endpoint_config.h, each list under the name of
-- its macro or of the cluster and endpoint it is for, and the arrays of access.h. Under it:
-- the entries' types (Types), the attributes (Root, RootThread, RootSecurity, AirConditioner,
-- Sensors, Attributes), the commands and events (Commands), the clusters (RootClusters,
-- DeviceClusters, SensorClusters), the endpoints (Endpoints), the privileges (Access); how an
-- attribute of an endpoint is found (Lookup); how the tables fit together (Layout, Sizes,
-- Limits, CommandLists, Privileges), and the limits of the setpoint that the callbacks send
-- (Uses).
--
-- CommandHandler: src/zap-generated/IMClusterCommandHandler.cpp. The SDK's decoding, the
-- clusters' callbacks and AddStatus are a record of functions on a state of any type. Under
-- it: the dispatch against a table of the commands (Table), over the clusters it knows
-- (Clusters), and against the accepted commands of the data model (Accepted).
--
-- ClusterInit: the switches of src/zap-generated/callback-stub.cpp, app/cluster-callbacks.cpp
-- and CodeDrivenInitShutdown.cpp, as the call each makes. Under it: Covered.
--
-- StaticConfig: the headers of src/zap-generated/app/static-cluster-config, one value for each
-- cluster. Under it: their type (Types), the clusters (Root, RootServices, Device,
-- DeviceServices), and what their functions and arrays say of one another and of the data
-- model (Enabled).
--
-- GenConfig: the constants of src/zap-generated/gen_config.h, by the name of their cluster,
-- which the comments of endpoint_config.h share. Under it: the entries' types (Types), the
-- counts of endpoints (Servers, Clients), the plugins and the enabled commands (Plugins), and
-- what the tables say of them (Counted).
--
-- Bounds and fuel. Machine integers are native numbers with the wrap-around written out at
-- each width. The loops of the source are counted, so each is a recursion on its count
-- (pulses, 10 attempts, 60 writes, 8 bits, 12 forbidden codes) or on the list it walks; there
-- is no other fuel.
--
-- Not modelled: the QR code generator (src/qrcodegen.c, another project's library), the other
-- generated headers of src/zap-generated (declarations that only the SDK uses, and empty
-- functions), the SDK, Zephyr and its drivers, and the build configuration. The constants that
-- matter info prints, the registers that ir_driver_init sets and the values of the Hanning
-- window are not modelled either, nor are log lines and sleeps.
pub mod Common
pub mod IrProtocol
pub mod ZclCallbacks
pub mod HwPairing
pub mod Scd40Manager
pub mod IrDriver
pub mod PdmManager
pub mod IrLink
pub mod IdentifyLed
pub mod ShellCommands
pub mod Delivery
pub mod AppTask
pub mod DataModel
pub mod CommandHandler
pub mod ClusterInit
pub mod StaticConfig
pub mod GenConfig
