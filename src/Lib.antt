-- ===== src/Lib.antt =====
-- libevfilter: filters for events of Linux input devices.
--
-- The program reads input events from a device and sends them through a line of filters. A filter
-- keeps some data, gets each event by its `modify` function, may write to it, and hands it on to
-- the next filter, several times or not at all. Filters are made from a name and a text of
-- parameters, `name = value ...`. A daemon waits for the devices in a queue of descriptors, and
-- handles carry events from one line to another. The names of keys are looked up in a
-- table by halving.
--
-- The files:
--   Base, Base/...     numbers, lists, `int` arithmetic with its wrap-around, and texts
--   Event              struct input_event, and the calls of `modify` (src/evf_struct.h)
--   Event/Compose      a line of filters as the nesting of these calls
--   Filters/Stages, Filters/Stages/Lines
--                      lines that are made of six of the filters
--   Param/Defs, Parse, Load
--                      parameter tables, errors and `evf_load_params` (src/evf_param.c,
--                      src/evf_param.h, src/evf_err.h, src/evf_func.c)
--   Param/Told         errors as text: src/evf_err.c
--   Param/Placed       what a list of names and values should give, told without the code
--   Param/Total, Typed, Ints, RoundTrip, Printed
--                      proofs about the loader
--   Filters/...        a file for each of nineteen filters of src/filters: its struct, `modify`,
--                      `alloc`, its parameter table and `creat`, with the proofs in a child of it
--   Filters/Status, Status/...
--                      the functions `status` of src/filters, which tell a filter's state as text
--   Filters/AtHandle   what the three filters at handles share
--   Filters/Creat      proofs about the `creat` functions of eleven filters on integers
--   FilterList, FilterList/...
--                      the table of filters and the linked list of a line: src/evf_filter.c,
--                      and `evf_line_attach_filter` of src/evf_line.c
--   Config, Config/... files of filters and the profiles that choose them: src/evf_loader.c,
--                      src/evf_profile.c, and `evf_read_line_preprocess` of src/evf_func.c
--   Line, Line/...     a device with its line of filters: src/evf_line.c
--   Input, Input/...   the names of events, an event as text, and what is asked of a device:
--                      src/evf_input.c
--   Hotplug, Hotplug/... devices that come and go: src/evf_hotplug.c
--   Uinput, Uinput/... devices that the program makes: src/evf_uinput.c, src/config.c
--   Msg, Msg/...       messages: src/filters/evf_msg.c
--   Daemon, Daemon/... what the daemon does with a device, how it starts, and how it ends:
--                      src/evfd/evfd.c
--   Lock, Lock/Race    the lock file of the daemon, and several daemons at once:
--                      src/evfd/evfd_lock.c
--   IoQueue, IoQueue/... src/evf_io_queue.c
--   Handle, Handle/... src/evf_handle.c
--   KeyParser, KeyParser/... src/keyparser/key_parser.c, the table of src/keyparser/keys.h, and
--                      src/keyparser/evf_getkey.c
--   Tests/...          the theorems at concrete inputs
--
-- How the code is translated: a `modify` function takes the filter's data, the event and the state
-- of what stands behind the filter, `next`, which may write to the event and may fail; a stream is
-- run by `Event.run`. `none`, and `fault` in the loader, stand for what ends or corrupts the
-- process: a division by zero, a read of freed memory, a read behind an array. The memory that
-- `malloc` returns, and what it has in it, is an argument. `int` arithmetic wraps at 32 bits, as
-- it does with the compilers in use.
--
-- Fuel: the first loop of `evf_load_params` has a round for each byte of the text, since a name
-- takes a byte at least; the loop of `keyparser_getkey` one round more than the table has names,
-- since each round that goes on makes the range smaller; a round of the queue one visit to each
-- member; the loops over a list of filters one round to each filter; those over a ring of samples
-- one round to each place; the loop over what inotify gives one round to each event and one more;
-- the loops that read a file or a profile one round more than it has bytes.
--
-- Parameters of the model: strtol, strtof, fopen, open, read, malloc, `select`, getopt, daemon,
-- what ioctl, stat, readdir, inotify and /proc tell, the layout of struct inotify_event, the
-- callbacks, the arithmetic on float and double of three filters, the codes that linux/input.h
-- gives to BTN_LEFT and to the names of keys, and the text that `%i`, `%u` and `%f` print.
--
-- The parts meet in the daemon: `Daemon.Main.start` takes the lock, makes the queue, and has the
-- hotplug report every device to `device_plugged`, which makes a line of filters and a member of
-- the queue for it; `serve` is the loop, in which `line_data` sends an event through a line, and
-- `leave` destroys the lines and removes the lock. What src/evf_hotplug.c and `main` use of the rest
-- of the program is an interface, `Hotplug.Host` and `Daemon.Main.Queue`, which
-- `Daemon.Main.evfd_host` and `Daemon.Main.evfd_queue` fill.
--
-- Not modelled: where the other parts write messages, which only prints: also the message at the
-- end of `evf_load_filters`, with the array `filter_list` that it prints, which is unset for a file
-- without a filter; descriptors from FD_SETSIZE on, which an fd_set has no room for; the handler of
-- signals, which ends the loop of the daemon between two rounds; the programs of src/tests, which
-- call the library at fixed inputs and print the answers.
pub mod Base
pub mod Event
pub mod Param
pub mod Filters
pub mod FilterList
pub mod Config
pub mod Line
pub mod Lock
pub mod Daemon
pub mod Input
pub mod IoQueue
pub mod Uinput
pub mod Msg
pub mod Handle
pub mod Hotplug
pub mod KeyParser
pub mod Tests
