-- ===== src/Lib.antt =====
-- The modem library: serial file transfer by XMODEM, YMODEM and ZMODEM for Zephyr.
--
-- The library has three protocol engines, src/xmodem.c, src/ymodem.c and src/zmodem.c, each with a
-- receiver and a transmitter. An engine reaches its line and its data through callbacks that the
-- application gives it (include/modem/xmodem.h, ymodem.h, zmodem.h), and its checksums through
-- src/crc.h, which wraps Zephyr's CRC service. The transports and the console shell
-- (src/zephyr_console_modem.c) supply such callbacks.
--
-- What is modelled where:
--   Base, with Tests, Lists, Words and Xor: Boolean tests, lists, the words of C, exclusive or.
--   Io: the line of an engine, that is its callbacks read_byte and write_bytes.
--   Crc: src/crc.h and src/crc.c. Zephyr's CRC functions are the parameter CrcService; a theorem
--     that needs it asks with HasWidths that a 16-bit CRC is below 65536, and nothing else.
--   Clib: what the source uses of the C library's strings and numbers (memchr, strtoul, snprintf).
--   Xmodem: include/modem/xmodem.h. Xmodem/Frame: the wire format of a block, stated by itself.
--     Xmodem/Receive: xmodem_receive; Xmodem/Transmit: xmodem_transmit; Xmodem/Session: both.
--   Ymodem: include/modem/ymodem.h, and parse_block0 of src/ymodem.c. Ymodem/Receive: ymodem_receive;
--     Ymodem/Transmit: ymodem_transmit.
--   Zmodem: include/modem/zmodem.h. Zmodem/Escape: the ZDLE escapes. Zmodem/Headers: the headers.
--     Zmodem/Subpacket: the data subpackets. Zmodem/Receive: zmodem_receive. Zmodem/Transmit:
--     zmodem_transmit. Zmodem/Session: what a batch looks like on the line. Zmodem/Platform: the CRC
--     service, and the memory behind the 20-byte buffer of send_hex_header, where the code stores a
--     21st byte: a parameter says what is read back there, and the store is taken to touch nothing
--     else of the program. The theorems on sessions ask that it keeps the byte.
--   LogRotation: include/modem/log_rotation.h and src/log_rotation.c, log files used in turn.
--   Autostart: src/modem_autostart.c, the detector of a ZMODEM start on the console.
--   SessionDispatcher: src/session_dispatcher.c, the table of transfer sessions.
--   McubootValidate: src/mcuboot_validate.c. FlashHelper: src/modem_flash_helper.c.
--   DeltaUpdate: src/delta_update.c. EncryptedStream: src/encrypted_stream.c.
--   SignatureVerify: src/signature_verify.c. StreamDecompress: src/stream_decompress.c.
--   Ring: the byte rings of the two transports that follow. Ring/Queue and Ring/Bounded relate a ring
--     to the queue of the bytes that it holds.
--   BleNusTransport: src/ble_nus_transport.c.
--   NfcTransport: include/modem/nfc_transport.h and src/nfc_transport.c. Record: its state and the
--     NDEF records; Receive: the callbacks and read_byte; Transmit: write_bytes and the flush.
--   Console: src/zephyr_console_modem.h and the settings of src/zephyr_console_modem.c. Console/Read:
--     console_read_byte and the abort key; Files: how files are opened, written and closed; Xmodem,
--     Ymodem, Zmodem: the three receive functions, which run the engines over the files; Transmit: the
--     transmit functions for YMODEM, ZMODEM and directories; XmodemTransmit: that for XMODEM; Shell:
--     what the commands call; Config: cmd_modem_config; Statistics: src/modem_stats.c. Every feature
--     of the build is enabled.
--   Samples, and the Examples of each part: concrete instances, and the theorems at them.
--
-- How the code becomes definitions:
--   - What an engine meets on its line is a script, a list with one entry for each call of read_byte:
--     a byte, a cancellation (-2), or a failure (any other value). When the script is used up, every
--     further read times out. What write_bytes is given is kept in order; the source ignores its
--     result. The length of a timeout has no effect but on when read_byte gives up.
--   - The local variables of an engine are a record, each step of its loop is a function from that
--     record to the way the loop goes on (continue, or stop with a status), and the functions are
--     put together as the code puts its steps. C's `continue` and `return` are the two constructors.
--   - Where the receiver and the transmitter of src/zmodem.c have a function each that only differ in
--     their callback type or in the escapes they read, one definition has the difference as an
--     argument, and both copies are mapped to it.
--   - Data callbacks are functions of what they were given before, or a log of calls.
--   - uint8_t, uint16_t and size_t (64 bits) wrap around, written out with `%`. A shift and an `|` of
--     disjoint bits is a product and a sum.
--   - A pointer that the code tests for NULL is an Option where the test matters. A static variable is
--     part of the state that an operation takes and gives back.
--   - The wait of the NFC transport is a list of its turns, each with what an interrupt delivers and
--     the time that the clock then shows; it is none when the turns are over and it still goes on.
--   - The console's receive and transmit functions run the engines on the script that
--     console_read_byte makes of the calls, with the abort key and the CAN count.
--   - The base image of a delta update is a memory, a function from offsets, since the code reads it
--     without a look at its size.
--   - The file system is a parameter: what it answers to an open and to a write. The console's context
--     keeps what it took of each file. A path or a name is a list of bytes without its NUL.
--   - A loop whose length the data does not bound takes fuel: `none` is the result when it runs out.
--     xmodem_receive has 258 rounds more than its script has entries, since on a silent line its
--     8-bit retry counter ends it; ymodem_receive has 13 more, since it gives up after ten retries;
--     zmodem_receive has one round for each entry and one more, since every round that goes on reads
--     at least one byte. The transmitters have a round for each entry and one more for their files,
--     of which each waits for answers, and rounds by the size of the file for its blocks.
--
-- Not modelled:
--   - Of src/zephyr_console_modem.c: the progress bar and what the commands print. A channel that is
--     bound is known by what its read_byte and write_bytes return.
--   - src/net_socket_transport.c and src/modem_usb_cdc_acm.c: placeholders that move no byte.
--   - The T4T library, Zephyr's drivers and its file systems.
--   - samples, tests, tools and the build files.
pub mod Base
mod Samples
pub mod Io
pub mod Crc
pub mod Clib
pub mod Xmodem
pub mod Ymodem
pub mod Zmodem
pub mod LogRotation
pub mod Autostart
pub mod SessionDispatcher
pub mod McubootValidate
pub mod FlashHelper
pub mod DeltaUpdate
pub mod EncryptedStream
pub mod SignatureVerify
pub mod StreamDecompress
pub mod Ring
pub mod BleNusTransport
pub mod NfcTransport
pub mod Console
