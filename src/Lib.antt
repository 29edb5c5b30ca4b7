-- ===== src/Lib.antt =====
-- ipctool: a model of the tool's sensor detection, of its U-Boot environment, of the chip's
-- identification, of its register access, its pin multiplexing, its name resolution, its YAML
-- output and its flash writes.
--
-- The program identifies the hardware of an IP camera. Its parts here, and where they stand:
--
-- * Sensor detection, src/sensors.c. Sensors/Bus models the state (`sensor_ctx_t` and the statics
--   that detection assigns) and the platform's access functions (src/hal/common.h), which are the
--   record `Hal`, a parameter of all that follows. A detector is a computation in the state monad
--   `M`; its early returns are blocks that end with `some` answer. Sensors/Sony, Smartsens, Soi,
--   Omni, Superpix and Others hold the detectors under the names of the C functions, the long ones
--   cut into the blocks of their bodies; the children called Naming and the module Verdict hold the
--   proofs about what they leave in the context. Sensors/Probe has `detect_possible_sensors`, the
--   chain of vendors in `get_sensor_id_i2c`, `get_sensor_id_spi` and `getsensorid`. An `int` that is
--   read is its 32-bit pattern, so that -1 is 2^32 - 1 and the signed tests are written out.
--   `sensor_write_register` is called through its pointer; a call through NULL, which ends the
--   process, is noted in the state, and what the model does behind it means nothing.
-- * The U-Boot environment, src/uboot.c. Uboot/Crc is the table-driven CRC-32, over the size of the
--   accumulator; Uboot/Detect is `uboot_detect_env` on an image given as a function of the offset;
--   Uboot/Env has `uboot_env_get_param`, `uboot_copyenv_int`, `uboot_setenv_cb` and
--   `set_env_param_ram`. A pointer into a buffer is the list of bytes from there on, and an access
--   outside it is a value of its own (`overrun`, `crash`); so is a copy of `env_len` bytes that does
--   not fit. Uboot/Env/Spec is the specification of setting a variable on the list of entries, and
--   Uboot/Env/Size has what that leaves in `uenv` and in the flash.
-- * The chip's identification, src/chipid.c. Chip/Detect has the table of manufacturers and the
--   detection by the first UART's address and by /proc/cpuinfo; Chip/Name has `getchipname`,
--   `getchipfamily` and `getchipvendor`. The detect and setup functions of src/hal are the record
--   `CpuLayer`; the model notes which platform was set up last.
-- * The register access, src/tools.c. Memory is `mem_reg` with its statics, over the system calls in
--   the record `DevMem`; a mapping ends with its last page, and an access behind it is a `fault`.
-- * Pin multiplexing, src/reginfo.c. Pinmux/Tables holds the register tables of all chips, with those
--   of src/hal/sstar_reginfo.h and src/hal/ingenic_reginfo.h, and a check of each; Pinmux/Select
--   is `regs_by_chip` with the tests of src/hal/hisi/hal_hisi.h; Pinmux/Mux is `gpio_mux_by`; Pinmux/Gpio
--   is `get_chip_gpio_adress`, `gpio_manipulate` and the commands around them; Pinmux/Enabled is
--   `fill_enabled_gpios`. They access registers by the `mem_reg` of Memory. `sscanf` and `strtoul` are
--   the record `Scan`.
-- * Name resolution, src/dns.c. Dns has `fill_dns_req`, `parse_dns_resp`, `resolv_name`,
--   `add_predefined_ns` and `parse_resolv_conf`; the sockets are the record `Network`. Dns/Request and
--   Dns/Name relate the request's bytes and the loop over the response's name to the labels of the name.
-- * YAML output, src/cjson/cYAML.c. Yaml has the functions that print a value, over the buffer and its
--   `push`; Yaml/Buffer is the string buffer, over an allocator that may refuse (`Heap`), and Yaml/Text
--   the growing text that specifies it. Yaml/Reader reads scalars back: quoted ones, and plain ones
--   that are sure to be strings. What the C library does with doubles is the record
--   `Doubles`, and whether `char` is signed is an argument.
-- * Flash, src/mtd.c. Mtd has `mtd_write` with the erasing, the write and the verification of a
--   block, and `enum_mtd_info` with its callbacks; system calls and src/boards/xm.c are the record
--   `FlashCalls`.
--
-- Base holds what they share: Boolean tests, lists with native lengths, C text, number formatting.
-- Tests has runs on concrete inputs.
--
-- Fuel: the loops of `uboot_env_get_param` and `uboot_setenv_cb` get as many rounds as the buffer
-- has bytes, since each round passes at least one byte; `uboot_detect_env` gets one more than the
-- image has bytes, which is enough for an erase size from 1 to the largest `int` and an image below
-- 2 GiB, where no offset wraps round; a scan that has not ended then is `running`. The two loops of `parse_dns_resp` get
-- one fuel; a loop that is still running then is a result of its own (`unfinished`).
--
-- Not modelled: the platforms' access functions and chip detection (parameters of the model), the
-- building of the JSON values, the register dump and `gpio scan`, the report of the flash partitions,
-- backup, HTTP, tracing, clocks and benchmarks, which are device access or reports; hashtable.c, sha1.c and cJSON are other projects' code. In src/uboot.c
-- and src/mtd.c `calloc` and `malloc` succeed.
pub mod Base
pub mod Sensors
pub mod Uboot
pub mod Chip
pub mod Memory
pub mod Pinmux
pub mod Dns
pub mod Yaml
pub mod Mtd
pub mod Tests
