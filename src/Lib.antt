-- ===== src/Lib.antt =====
-- VectiLicense: offline licence verification for firmware, in C.
--
-- A licence is 100 bytes, a payload of 36 and an Ed25519 signature of 64, which travels as 160
-- characters of base32. vl_verify decodes it, looks at its header, checks the signature, compares
-- the device id in it with a fingerprint of the hardware, and then looks at the deny-list, the
-- clock and a stored high-water mark. The hardware is reached through a table of callbacks.
--
-- Parts and files:
--   Base        the shared names, tests, list lemmas, bit operations, positional numbers, words as
--               bytes, and texts
--   Base32      core/vl_base32.c: vl_base32_encode and vl_base32_decode. The decoder's locals are the
--               record Decoder, whose `out` has the length `out_idx`; -1 is `none`.
--   Util        core/vl_util.c: vl_secure_wipe and vl_ct_eq
--   Hash        the block buffering that core/vl_sha256.c and core/vl_sha512.c share line for line,
--               over the block length and the compression function
--   Sha256      core/vl_sha256.c, Sha512: core/vl_sha512.c, with their constants and compressions
--   Ed25519     core/vl_ed25519.c: vl_ed25519_verify, scalar_is_reduced, is_low_order, and unpackneg
--               with its test of the key's spelling. The field and curve arithmetic that the file
--               copies from TweetNaCl is the record Curve; PacksBytes is the law it needs.
--   Api         include/vectilicense/vectilicense.h: the types, constants and the callbacks. A
--               callback is a function on a world of any type; NULL is `none`.
--   Core        core/vl_core.c: Core/Fingerprint has vl_compute_fingerprint and vl_encode_device_id,
--               Core/Verify has vl_verify, Core/Query has vl_has_feature and vl_posture,
--               Core/Messages vl_status_str and vl_version_str. The numbered
--               steps of vl_verify are functions of Core/Verify/Steps that pass a value on or fail
--               with the status that the code carries to `fail:`; Core/Verify/Accepts is the
--               specification, which has no order of steps, and Core/Verify/Authentic puts
--               vl_ed25519_verify in place of the parameter.
--   Hal         the backends under hal/. Hal/Stm32, Hal/Nxp, Hal/None, Hal/Rp2040, Hal/Esp32: the
--               callbacks of hal/stm32/vl_hal_stm32.c and so on, over the registers or the calls of
--               the vendor's SDK (records Sdk, Idf); Hal/Posix: hal/posix/vl_hal_posix.c on Linux,
--               over the calls of the C library (record Os), and Hal/Posix/MacOs its identity on macOS
--               (record MacOs, getifaddrs and IOKit). Hal/Single has what platforms with one
--               identity segment share. The laws that a theorem needs of an SDK or of the C library
--               are its hypotheses IsMapped, Persists and Keeps.
--   Bridge      bridge/vl_bridge.h: the class vecti::License, its members the record LicenseObject and
--               each method a function on it; it calls Core/Verify and Core/Fingerprint and, through
--               the callbacks, the platform. Bridge/Invariant has the states that sequences of
--               methods reach. Bridge/Serial, Bridge/Net, Bridge/Dash and Bridge/Ota are the adapters
--               bridge/vl_bridge_serial.h and so on, functions on the same object over the calls of
--               the sibling libraries (records Console, Portal, Dash, Updater).
--   Gate        examples/baremetal/vl_gate.c: a product's identity callback and its gate over
--               vl_verify and vl_line_push, with its static variables the record Gate
--   Activate    examples/posix/vl_activate.c: main with its output, over Hal/Posix and Core/Verify
--   Sketch      examples/esp32-arduino/esp32-arduino.ino: setup, loop and the callbacks, which put
--               Hal/Esp32, Bridge and the four adapters together. The callbacks of the console and
--               the dashboard are steps between two passes of loop.
--   Transport   Transport/Line: transport/vl_line.c, vl_line_reset and vl_line_push on the record Line;
--               Transport/Chunk: transport/vl_chunk.c, vl_chunk_reset, vl_chunk_feed and
--               vl_chunk_complete on the record Chunk
--
-- Memory and numbers: C arrays and strings are lists of native numbers, a pointer to one is the
-- list from it on, and NULL is `none`; strings are given without their NUL. uint32_t and uint64_t
-- arithmetic keeps its wrap-around written out. Memory that a function writes comes back beside
-- its status. What the stack holds where a buffer is laid is an argument.
--
-- Loops: those over an array recurse on it; the loop over identity segments recurses on the 64
-- rounds of VL_ID_SEGMENT_COUNT_MAX. The loop over whole blocks runs on fuel, the length of the
-- data, which is enough because every round takes at least one byte; the streaming theorems are
-- about this function with this fuel. The loop over the lines of /proc/cpuinfo runs on the length of
-- the file, since every round takes a character.
--
-- Not modelled: the field and curve arithmetic of core/vl_ed25519.c, a copy of TweetNaCl. The call
-- of vl_ed25519_verify in vl_verify is a parameter (signature, message, key), which
-- Core/Verify/Authentic instantiates. The tests, the tools and the Arduino wrapper are not
-- modelled, nor is the build of hal/posix without IOKit. The sketch is taken with all four sibling
-- libraries. The NULL checks of the hal/ callbacks are left out: vl_verify, vl_compute_fingerprint
-- and vecti::License call them with buffers. Two tasks that share a vecti::License appear as the
-- sequence of their calls. Timing and the wiping of locals that no caller sees are not modelled
-- either.
pub mod Base
pub mod Base32
pub mod Util
pub mod Hash
pub mod Sha256
pub mod Sha512
pub mod Ed25519
pub mod Api
pub mod Core
pub mod Hal
pub mod Bridge
pub mod Gate
pub mod Activate
pub mod Sketch
pub mod Transport
