-- ===== src/Lib.antt =====
-- A verification library for async-on-embedded: an asynchronous runtime for microcontrollers (the
-- crate in async-embedded) and drivers for the nRF52840 that are written against it (nrf52).
--
-- The parts and their files. Runtime: the `ready` flags that wakers point at and the event flag
-- (async-embedded/src/lib.rs, VTABLE of async-embedded/src/executor.rs). Alloc: the bump allocator
-- (async-embedded/src/alloc.rs; `alloc`, `round_up`). WakerSet: the set of blocked operations
-- (async-embedded/src/unsync/waker_set.rs; `insert`, `remove`, `cancel`, `notify_one`,
-- `notify_any`), over Slab, the interface of the slab of heapless; Slab/Lists is a slab for which
-- the laws of the interface hold. Mutex (async-embedded/src/unsync/mutex.rs) and Channel
-- (async-embedded/src/unsync/channel.rs) keep WakerSets: `poll` is `Lock::poll`, `drop_lock` and
-- `drop_guard` are the two drops, `poll_send` and `poll_recv` are the polls of `Send` and `Recv`.
-- Their System modules are step relations over every interleaving of these calls. Executor: the
-- loop of `block_on`, `spawn`, `current` (async-embedded/src/executor.rs) and `Yield`
-- (async-embedded/src/task.rs); it polls futures by the flags of Runtime and takes memory from
-- Alloc. Timer (nrf52/src/timer.rs), Twim with its registers in Twim0 (nrf52/src/twim.rs) and
-- Serial (nrf52/src/serial.rs) are the drivers of the chip's own devices: each has the polls of its
-- futures as functions on the device's registers, and the interrupt handler as one more such
-- function. Twim/Staging is what `write` does before its future; Twim/Await and Serial/Await await
-- the transfers to their end, and Timer/Counting a wait. Host is `Twim` from end to end, from the
-- bytes in memory to those on the wire and back, and Serial/Link is `Rx::read` and `Tx::write` in
-- the same way. Singleton is the `take` of the three drivers, and Boot is `pre_init`
-- (nrf52/src/lib.rs) with the `init` of each. Bus is the interface of the I2C host that the drivers
-- of the devices behind it see: Ds3231 (nrf52/src/ds3231.rs; the registers, and in Ds3231/Driver
-- the methods) and Scd30 (nrf52/src/scd30.rs). Bus/Registers and Ds3231/Calendar are a bus and a
-- calendar that meet what is asked of them.
--
-- Examples: the programs of nrf52/examples. Yielding, Sharing, Locking and Messages are 1-yield.rs,
-- 2-share.rs, 3-mutex.rs and 4-channel.rs: the two futures of each over Executor, Mutex and
-- Channel. Heartbeat is 5-heartbeat.rs over Timer and Led (nrf52/src/led.rs); Echo is 6-hello.rs
-- and 7-echo.rs over Serial/Link; Sensor is 8-sensor.rs as steps. Console is 9-clock.rs: `from_str`
-- parses a command, `receive` collects bytes, Report writes the answer to `sensors`, and Session
-- puts them together over Ds3231/Driver. Clock is the whole program as steps: the sensor's task,
-- over Scd30, and the console share one bus. Utf8 is what the console uses of the standard
-- library's `from_utf8`.
--
-- State is passed explicitly. A panic or an abort is `none`; a waker is the address of the flag
-- that it raises. A future is the values of its fields, which a poll takes and returns. What
-- hardware and interrupts do between two calls is any change of the state: the theorems on single
-- calls speak of every state.
--
-- Bounds. `usize` has 32 bits and its arithmetic wraps, as in the release profile; the theorems on
-- the channel ask for a read cursor that is more than nine below 2 ^ 32, those on the allocator for
-- requests no larger than the memory. The loop of `block_on` takes fuel, one unit a turn; it is
-- enough that the fuel exceeds the rank that the main future lowers at each poll.
--
-- A poll in Heartbeat takes fuel, one unit a move; three are enough for every poll from the start
-- on. The loop of `get_measurement` takes fuel, one unit a question to the sensor; it is enough
-- that the fuel exceeds the number of times that the sensor is not ready. The busy wait of
-- `pre_init` takes fuel, one unit a look at the event; it is enough that the event is found within
-- the fuel.
--
-- Parameters: the slab (heapless), dates and times with their parsers and their display (chrono),
-- the futures of the application, the wire of the I2C bus with its devices. The law of chrono that
-- is used for building a time from hours, minutes and seconds is that for times of whole seconds.
-- Hypotheses of single theorems: a sensor that gets ready, a clock that is a file of registers, a
-- read that fills its buffer unless it fails. The hardware does what its manual says: the DMA in
-- Host and Serial/Link; the events of the I2C host, which only the driver resets; and in
-- Timer/Counting the counter RTC0, which raises COMPARE where the manual promises it: for a CC that
-- is at least two ticks ahead, unless the old CC was one or two ticks ahead. Elsewhere COMPARE is a
-- parameter.
--
-- Not modelled: panic-udf, an undefined instruction; memory orderings and fences, since one core
-- runs the program; the devices' registers beyond those that the drivers name. The mutex around the
-- Twim is modelled apart from Bus: a method of a driver holds it for one transaction or two, which
-- Bus takes as not interrupted. A `Duration` that overflows is not modelled. A transfer on the
-- serial line is moved by the DMA at once, when its task is triggered: bytes lost between two reads
-- are not modelled.
pub mod Alloc
pub mod Boot
pub mod Bus
pub mod Channel
pub mod Ds3231
pub mod Examples
pub mod Executor
pub mod Host
pub mod Led
pub mod Mutex
pub mod Prelude
pub mod Runtime
pub mod Scd30
pub mod Serial
pub mod Singleton
pub mod Slab
pub mod Timer
pub mod Twim
pub mod Twim0
pub mod WakerSet
