-- ===== src/Lib.antt =====
-- libtopfield: the protocol library for Topfield 5000PVR recorders over USB.
--
-- A program opens a device, sends it requests and reads its answers. The files of the repository
-- build on one another: `tf_bytes.c` loads, stores and swaps bytes, `crc16.c` makes the checksum,
-- `mjd.c` converts time stamps, `tf_io.c` builds packets, exchanges them and implements the
-- commands, `tf_util.c` adds path names, file status and sorting, `tf_fwio.c` talks to the
-- bootloader in a protocol of its own, `usb_io.c` moves bytes through the kernel, `tf_open.c`
-- opens a device under a lock and `daemon.c` locks a pid file.
--
--   Bytes           tf_bytes.c
--   Crc             crc16.c
--   Mjd             mjd.c, mjd.h
--   Packet          tf_io.c: tf_packet_t, tf_req_init, tf_req_put..., tf_req_done
--   Msg, Err        the command codes of tf_io.c and the error codes of tf_io.h
--   Handle          tf_open.h: tf_handle, and the monad that the commands run in
--   Io              tf_io.c: tf_send, tf_get_response, tf_cmd, tf_send_success, tf_send_fail
--   Commands        tf_io.c: tf_init and the commands with one request and one answer
--   Dirent, Dir     tf_io.c: unpack_dirent, get_dirents and the listing commands
--   Put, Get        tf_io.c: sending and fetching a file
--   Path            tf_util.c: tf_makename
--   Stat            tf_util.c: tf_stat
--   Sort            tf_util.c: the comparison functions and tf_sort_dirents
--   Fw              tf_fwio.c
--   Transfer        usb_io.c: usb_bulk_write, usb_bulk_read; Transfer/Bus makes the record `Usb` of
--                   them, and Io/Bus runs a command over it
--   Open            tf_open.c
--   Daemon          daemon.c
--   Search          usbutil.c: the device search over libusb
--   Search/Proc     usb_io_util.c: the device search in the kernel's list, in the other build
--   Trace           tf_io.c, tf_fwio.c: the texts of errors and commands, and the traces
--   Base            shared helpers: tests, lists, C's int, bit operations
--   Examples        runs at concrete inputs
--
-- A definition has the name of the C function that it models; the functions of tf_fwio.c that
-- share a name with one of tf_io.c start with fw_, and those of usb_io_util.c that share one with
-- usbutil.c with proc_. A command is a function from the handle and the world to its result and
-- both of them after it. The world holds the device and all else outside the process; the USB
-- transfers stand behind the record `Usb`, the kernel's calls behind `Kernel` and `Usbfs`, libusb's
-- behind `Libusb`, the C library's time zone behind `TimeZone`, the system calls of tf_open.c and
-- daemon.c behind `Host` and `Os`, and qsort is an argument. A request under construction keeps
-- its body apart from its header. `none` is a fault: an access outside a packet or array. What a
-- session with a device gives is a relation on the calls that a caller makes (`Downloads` for a
-- file, `Brings` for a listing, `Sent` for a file on its way out, `Uploads` for firmware), over a
-- relation that says what the device does.
--
-- Loops are structural recursion on what they consume. The loops of usb_io.c and of tf_send in
-- tf_fwio.c run on fuel of one more than the length; every round but the last moves at least one
-- byte, so it never runs out. daemon_acquire_lock has fuel for block_seconds + 1 rounds and
-- topfield_open for its two. The lines of the kernel's list of devices are read with fuel of its
-- length; each of them has a character. The loop of tf_stat runs on fuel that the caller gives, since a
-- device may send entries for ever. The retries of tf_cmd_get_cancel are the five of the source.
--
-- mjd.c computes in double with constants of at most four decimals; the model scales them to whole
-- numbers and divides towards zero.
--
-- Not modelled: the lines that DEBUG_LOG writes to the system log in debug builds. Standard
-- error, where traces go, is taken to be open: `tf_send_success` prints to it without a test. A pid has
-- at most eight digits, for which the ten bytes that daemon.c and tf_open.c print it to are enough;
-- the model's `pid_line` has no fault for a longer one.
--
-- A size_t has 64 bits. It matters only in get_dirents, where the length of a reply less that of a
-- header may wrap.
pub mod Base
pub mod Bytes
pub mod Crc
pub mod Msg
pub mod Packet
pub mod Err
pub mod Handle
pub mod Io
pub mod Commands
pub mod Mjd
pub mod Dirent
pub mod Dir
pub mod Put
pub mod Get
pub mod Transfer
pub mod Path
pub mod Fw
pub mod Sort
pub mod Stat
pub mod Examples
pub mod Daemon
pub mod Open
pub mod Search
pub mod Trace
