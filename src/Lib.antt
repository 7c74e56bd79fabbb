-- ===== src/Lib.antt =====
-- automationfleet: a Go library that lets one program drive many browsers, whose jobs share one
-- mouse and one keyboard. This library models its core and proves what makes it correct.
--
-- The parts of the program, and the files that model them (source paths from the repository's
-- root):
--
-- Base: shared names; Boolean tests, lists, integers and texts (Base/Tests, Lists, Ints, Text,
--   Codes).
-- Heap: the algorithms of Go's container/heap over the five methods of heap.Interface, as a
--   record; Heap/Laws states what the methods must do, Heap/Array, Order, Up, Down and Correct
--   prove the algorithms from it.
-- Errors, Action, Job, Driver, Hotkey: the data of job.go, action.go, driver.go,
--   browser_handle.go and hotkey.go, with `validate` of actions and handles (Driver/Accepted).
-- Hotkey/Parse and Hotkey/Print are ParseHotkey and String of hotkey.go, on the texts of
--   Base/Codes, Hotkey/RoundTrip relates them, and Hotkey/Keys has the constants of the keys.
-- Kit (adapter_chromekit.go, adapter_firefoxkit.go): the two kits as drivers, whose calls are in
--   Kit/Chrome and Kit/Firefox; Kit/Center is about ElementCenter. Fleet/Kits is RegisterChrome
--   and RegisterFirefox of fleet.go, and Fleet/Kits/Routed the routing of their browsers' jobs.
-- Winapi (internal/winapi): the hook procedure; Winapi/Hook is InstallMouseHook with its
--   goroutine as a step relation, Winapi/Single its invariant, Winapi/Layout the keyboard layout
--   of a thread and the position of the cursor.
-- Hotkey/Listener (hotkey_windows.go): the listener's registrations and its message loop;
--   Hotkey/Listener/Released, Hotkey/Listener/Registered and Hotkey/Listener/Dispatched.
-- Queue (dispatcher_queue.go): the priority queue as an instance of Heap; Queue/Lawful fills the
--   laws of Heap/Laws, Queue/Order states the order in which jobs leave, and Queue/Stable
--   compares the queue with a stable priority queue.
-- Dispatcher (dispatcher.go): the state under the dispatcher's lock and its calls;
--   Dispatcher/Pause is the set of pause reasons. Dispatcher/System adds the goroutines (native
--   worker, pool, rejections, abortAll, requestStop's end) as a step relation whose steps are
--   what happens between two points at which another goroutine can run. Ownership, Results,
--   Invariant and Steps are its invariant, Outcomes, Final and Crash what follows from it. Work
--   is the measure of the work that is left, Alive what the ended workers tell of the state,
--   Progress looks for the next step, and Finish runs the steps to the end; Sequential compares
--   abortAll as one call with its steps, and Served the order of service with a stable priority
--   queue. Waiting puts the calls of Wait beside the goroutines, with the misuse of the
--   WaitGroup that Submit allows.
-- Watchdog (takeover_watchdog.go): the loop that pauses while a person moves the mouse, as a
--   machine with a clock; Watchdog/Debounce and Watchdog/Idle.
-- Critical (dispatcher_critical_windows.go, dispatcher_critical_other.go, and the executors of
--   dispatcher.go): what a job does with its browser, as a trace of operations; Critical/Click
--   is the drift guard, Critical/Order the order of the operations, Critical/Layout the switches
--   of the keyboard layout, Critical/Thread and Critical/Moved the layouts of the threads, of
--   which the goroutine is on one that is a parameter, Critical/Retry the retries;
--   Critical/Remote has the executors that work over the wire, and Critical/Shared compares them
--   with the operations on what all browsers share.
-- Config and Fleet (fleet.go): the options of New with their ranges (Config/Sane), and the
--   fleet, whose state is in Fleet/State and whose watchdog is in Fleet/Guard. Fleet/Mouse sends
--   the events of the mouse hook to the watchdog of a fleet. Fleet/Takeover and Fleet/Invariant
--   are about the watchdog of a fleet, Fleet/Registry about its browsers, Fleet/Pending about
--   its jobs, Fleet/Stop about its end; Fleet/Good and Fleet/Preserved make the invariant of the
--   whole, and Fleet/Runs puts its calls in sequence. Fleet/Concurrent runs them on goroutines
--   of their own, between the points at which another may run, with Fleet/Concurrent/State for
--   its data, Kept, Weights, Invariant, Asked and Steady for what its steps keep, Converged for
--   the end of racing calls, Reconcile and Sequential for a call that no other interferes with
--   (History has the watchdog's part of it), Left and Progress for their return, and Blocked and
--   Reentrant for a callback that stops the fleet.
-- FiveSteps (examples/five_browser_steps/main.go, with PageURL of examples/testpage/server.go):
--   the script of a browser, with FiveSteps/Script on when it passes; FiveSteps/Layout has the
--   windows, FiveSteps/Devtools the wait for a browser, FiveSteps/Literal jsString. MixedFleet
--   (examples/mixed_fleet/main.go) is its loop.
-- Tests: some of the repository's tests, and concrete runs.
--
-- A Fleet owns one Dispatcher and at most one Watchdog: Submit checks a job and enqueues it, the
-- watchdog calls Pause and Resume, Register and Unregister install and remove the watchdog, and
-- requestStop ends all three. Fleet is the model of one caller whose calls run one after the
-- other, and Fleet/Concurrent that of many callers; Dispatcher/System is the model of the
-- dispatcher's goroutines.
--
-- State is passed explicitly; a Go panic is `none`, or the flag `crashed` of a state of
-- goroutines. A Go map is an association list. Times are nanoseconds, read from arguments. Go's
-- int is an integer without overflow; the counters of jobs and of insertions are uint64 and
-- wrap; a float64 is its bits. The loops on fuel are those of the heap, with the length of the
-- queue, and the retries, with their number, and the example's wait, with the attempts that its
-- time allows; theorems prove that the fuel of the heap and of the wait is enough. FiveSteps
-- writes numbers of at most nine digits; it writes ports and pixels.
--
-- What the code only calls is a parameter: the answers of the driver, the page and the operating
-- system (Critical.World), what the calls of the kits answer (Kit.KitWorld) and their constants
-- BackendNative, how Windows loads and activates layouts (Winapi.Layout.LayoutOs), what
-- RegisterHotKey answers (Hotkey.Listener.Answers), whether the mouse hook can be installed and
-- in which order a loop that is told to stop takes its cases (Fleet.Schedule), which handle a
-- lookup finds (the steps of Dispatcher/System), and what the fleet and the page answer to the
-- examples (FiveSteps.World), with their clock and the outcomes of their attempts.
--
-- The loops of Hotkey/Print write at most 2 decimal and 8 hexadecimal digits, enough for the
-- keys that they are called for, which are uint32.
--
-- Not modelled: logging, the stubs of internal/winapi for other systems, the thread of the
-- hotkey listener, the time that Stop and Wait take, the time limits of contexts, calls of the
-- fleet from OnStop and from hotkeys' callbacks, more than one call from one callback of the
-- watchdog, a second call of the function that uninstalls the mouse hook, and what the examples
-- do with flags, processes, connections and their HTTP server.
pub mod Base
pub mod Heap
pub mod Errors
pub mod Action
pub mod Job
pub mod Kit
pub mod Queue
pub mod Driver
pub mod Dispatcher
pub mod Watchdog
pub mod Winapi
pub mod Config
pub mod Hotkey
pub mod Critical
pub mod Fleet
pub mod FiveSteps
pub mod MixedFleet
mod Tests
