-- ===== src/Lib.antt =====
-- The rotation target controller's firmware: a program moves the target banks of a shooting range
-- through its series of events, over HTTP and on a clock. This library models the decisions of
-- firmware/lib/rt_logic and the code of firmware/main that joins them to the board.
--
-- Parts, the files that model them, and the code (paths from the repository's root, rt_logic/ for
-- firmware/lib/rt_logic/):
--   Bank            rt_logic/target_bank.h: masks of banks.
--   BankText        rt_logic/target_bank.cpp: reading a selection of banks, and saying what moved.
--   Program         rt_logic/program.h: programs, series and events, their sums, the banks required
--                   (Program/Banks) and the range of a series' length (Program/Bounds).
--   Position        rt_logic/run_position.h: where in a series a time falls (Position/Locate).
--   RunState        rt_logic/program_state.h, executor.h: ProgramState and the answers.
--   StateUpdate     rt_logic/program_state.h: the stateUpdate payload, as data.
--   Targets         rt_logic/executor.cpp: set, toggle and flip over the banks.
--   Executor        rt_logic/executor.cpp: load, start, stop, reset, skip, unload.
--   RunLoop         rt_logic/executor.cpp: tick().
--   TargetPins      firmware/main/io/targets.cpp: from a bank's state to its GPIO's level.
--   Device          firmware/main/executor/program_executor.cpp: the executor behind its lock, what each
--                   call does to the pins and to the clients of the event stream.
--   HardwareConfig  rt_logic/hardware_config.h, hardware_config.cpp: which configurations may be saved.
--   HardwareOverlay rt_logic/hardware_overlay.cpp, firmware/main/config/hardware_store.cpp: the configuration
--                   that a device starts with.
--   HardwareStore   firmware/main/config/hardware_store.cpp: saving a configuration and resetting it; NVS is an
--                   interface.
--   Outbox          rt_logic/sse_outbox.h: the frames of the event stream that wait to be sent.
--   Clients         rt_logic/sse_clients.h: which clients get a frame, and which are closed.
--   Issues          rt_logic/issue_buffer.h: the issues raised before there is a client.
--   IdRange         rt_logic/id_range.h: the identifiers of what is uploaded.
--   Version         rt_logic/version.h, version.cpp: the version of the running image.
--   Button, Presses rt_logic/button_gesture.h, press_sequence.h: the BOOT button.
--   Ota             rt_logic/ota_policy.h, ota_upload.h: firmware uploads.
--   ControlLock     rt_logic/control_lock.h: who may change anything while a password is set.
--   Json            rt_logic/json_util.h: quoted texts; and the calls of ArduinoJson, an interface.
--   ProgramText     rt_logic/program.h: the JSON text of a program.
--   ProgramParser   rt_logic/program.cpp: reading it, and the names of program files.
--   Adpcm           rt_logic/ima_adpcm.h, ima_adpcm.cpp: decoding the clips.
--   Wav             rt_logic/wav_header.h, wav_header.cpp: the header of a clip.
--   Disk            firmware/main/storage/storage.cpp: directories; and the C library's calls on files, an
--                   interface.
--   Library         firmware/main/repositories/programs.cpp: the programs that a device knows, and their
--                   files.
--   UriPath         rt_logic/uri_path.h: the identifier in a route's path.
--   Problem         rt_logic/problem.h, library_changed.h: the problems that refusals answer.
--   Api             firmware/main/net/web_server.cpp: the handlers of the control lock (LockRoutes), of run
--                   control and the restart (RunRoutes), of the programs (ProgramRoutes) and of the targets
--                   (TargetRoutes), and all of them by route (Handle).
--   Common          tests on numbers, lists by native numbers, integers, texts and bit operations.
--
-- How they interact: Device calls the operations of Executor, Targets and RunLoop, each of which returns
-- the new state, a list of effects in the order in which the code calls Effects, and its answer. Device
-- gives the effects to TargetPins and to the event stream. HardwareConfig decides which pins TargetPins
-- gets. Library keeps what ProgramParser reads, under identifiers from IdRange, in files that ProgramText
-- writes. Api joins ControlLock, Device and Library: a handler is a function of the three, of what the clock and
-- the random source answer, and of the request. HardwareStore writes what HardwareOverlay reads.
--
-- Correspondence. An object's fields are a record, and a method is a function from the record to the
-- record and its answer. Nullable<T> is Option. int32_t and int64_t are integers. The sums of durations,
-- and the times that next_sleep_ms counts with, are wrapped to 32 bits at each step, since series that the
-- parser accepts overflow them; other sums are taken exactly; a BankMask is the function that answers whether a bit is
-- set, of which only the bits of existing banks are read. The loaded program is held by value, where
-- the code holds a pointer into the repository; Api/Served has the relation of the two. A time that
-- the code reads from the clock is an argument. A call of program_executor.cpp is two sections under its lock, the call's own and
-- the flush. A step of Device has the one right behind the other, and a history is a list of such calls, each
-- with its time, in any order; the executor's task is a call of tick() among them. Device/Turns has the
-- sections of several tasks in any order. Loops over
-- a list are recursions on it. Four definitions of the code run on fuel: the walk over
-- a clip's chunks, with the 64 turns that the code has; the scan for the
-- highest bank of a program, over the eight banks that the code scans; the search for a free identifier,
-- for which a turn for each one in use and one more is enough; and the digits of a number, for which the
-- number and one more is enough.
--
-- Outside code is a parameter. ArduinoJson is the record Json.JsonLib of the calls that are made, with the
-- laws Json.IsReading, which say what the calls answer on a document with a known content, as it is
-- printed, if the build has room for it. Json.Reader is a reader of printed documents at which they hold (Json.Instance). The calls of
-- the C library on files are the record Disk.Disk with the laws Disk.IsDisk; that fclose succeeds is a hypothesis of its own, AllClose, where a theorem needs it. Disk.Memory has files in memory at
-- which they hold. The calls of NVS are HardwareStore.Nvs with the laws IsNvs, and HardwareStore.Memory
-- has a namespace in memory. The bytes of the random source are an argument of the calls that issue a token.
-- Which handler a request reaches is up to PsychicHttp; a theorem about all of them ranges over the routes.
--
-- Not modelled: logging, and the calls of ESP-IDF, FreeRTOS and PsychicHttp; of rt_logic the console's commands
-- and archives; of the web server the routes of sounds, configuration, WiFi and
-- diagnostics, and static files; of firmware/main the sounds' library, the network, the tasks and the
-- start-up.
pub mod Common
pub mod Bank
pub mod Program
pub mod Position
pub mod RunState
pub mod Targets
pub mod Executor
pub mod RunLoop
pub mod StateUpdate
pub mod TargetPins
pub mod Device
pub mod HardwareConfig
pub mod Outbox
pub mod Clients
pub mod Issues
pub mod IdRange
pub mod Version
pub mod Button
pub mod Presses
pub mod Ota
pub mod ControlLock
pub mod Json
pub mod ProgramText
pub mod ProgramParser
pub mod Disk
pub mod Library
pub mod HardwareOverlay
pub mod Adpcm
pub mod UriPath
pub mod BankText
pub mod Problem
pub mod Api
pub mod HardwareStore
pub mod Wav
