-- ===== src/Lib.antt =====
-- petitboot is a boot loader that runs on Linux: the server (discover/) finds devices and the boot
-- options that their configuration files offer, chooses a default, counts down and starts a kernel
-- by kexec; the clients (ui/) show the options and send commands. Server and clients talk over a
-- socket in messages of their own (lib/pb-protocol). This library models that protocol, the
-- part of the server that decides what is booted, and the part that answers clients and events.
--
-- Files:
-- - Base: the names that all modules share. Base.Tests has Boolean tests, the conditional and
--   uint32_t wrap-around, Base.Lists lists of bytes, Base.Options chains of missing results.
-- - Talloc: the interface to lib/talloc, a copy of Samba's allocator: what talloc_strndup and
--   talloc_strdup return, as a record of operations with their laws. Each theorem on a
--   deserialiser takes one; Tests.Data has an instance.
-- - Types: the structures of lib/types/types.h that messages carry.
-- - Protocol: lib/pb-protocol/pb-protocol.c and pb-protocol.h. Words: 32-bit words, big endian as
--   by __cpu_to_be32 and in the host's order, which is a parameter. Reader: the cursor of a
--   deserialiser, the pointer pos and the counter len kept apart, so that a load can lie behind
--   the payload although len allows it; such a load is the outcome `fault`, the return of an error
--   `refused`. Fields: strings, words, flags and arrays. Device, BootOption, BootCommand,
--   PluginOption, Status, Autoboot, Auth, Config and SystemInfo: for each message X
--   pb_protocol_X_len as X_len, pb_protocol_serialise_X as serialise_X (X_bytes is what it
--   writes), pb_protocol_deserialise_X as deserialise_X. Transport: pb_protocol_create_message,
--   pb_protocol_write_message and pb_protocol_read_message. The modules named RoundTrip and Codec
--   prove; Codec has the rules by which the proofs are put together: a reader decodes a text of
--   bytes when it takes them off the front and is refused on every shorter text.
-- - DeviceHandler: discover/device-handler.c and the timers of lib/waiter/waiter.c. State: the
--   fields of struct device_handler that the choice of a default depends on. Priority:
--   ipmi_device_type_matches, autoboot_option_matches, autoboot_option_priority and
--   default_option_priority. Timer: default_timeout, device_handler_boot_status_cb, registering,
--   removing and firing a timer. Default: set_default, device_handler_cancel_default,
--   device_handler_boot, device_handler_apply_temp_autoboot and device_handler_remove. Queue:
--   device_handler_discover_context_commit, process_boot_option_queue and boot_option_finalise
--   over the options of parsers and their Resources; Resolution, Completed, Outcome,
--   Announce and Commit prove on it. Steps, Choice, Countdown, Cancel, Override, Removal, Order and
--   Failures prove.
-- - Boot: boot, boot_process and what they call in discover/boot.c, as the statuses that they
--   report and the task that they return, which is what DeviceHandler sees of a boot.
-- - Resource: discover/resource.c, with device_lookup of discover/device-handler.c: the files that
--   a configuration names by a URL, a path, or a device and a path.
-- - CString: strcmp, strcasecmp, strncmp and strchr of the C library as the code uses them.
-- - ParamList: lib/param_list/param_list.c. Lookup proves.
-- - BootOrder: the boot order in the platform's parameters, config_populate_bootdev and
--   params_update_bootdev_values of discover/platform.c, with the names of device types of
--   lib/types/types.c. RoundTrip proves, over ParamList.
-- - Interfaces: the network settings in the platform's parameters, params_update_network_values and
--   config_populate_network of discover/platform.c with the functions that they call. strtoul is a
--   parameter, asked for two digits at a time; strtok_r is the list of its tokens. The C library's
--   `(null)` stands for a null text. Tokens and RoundTrip prove for one interface, Network
--   for the interfaces as tokens, Saved for the parameter.
-- - Event: discover/event.c, and parse_event_args of utils/pb-event.c, which makes the messages.
--   RoundTrip and Lookup prove.
-- - Url: lib/url/url.c, URLs and their parts. RoundTrip proves.
-- - ParserConf: discover/parser-conf.c, names and values in configuration files. Pairs proves.
-- - DiscoverServer: discover/discover-server.c. Notices: the messages of the write_*_message
--   functions. Clients: struct client, struct discover_server, client_write_message,
--   discover_server_process_connection (process_connection), the notifications (notify,
--   notify_boot_status), discover_server_set_auth_mode and client_auth_timeout. Requests:
--   discover_server_process_message, split by permission as process_restricted and
--   process_unrestricted, discover_server_handle_auth_message, and serve, the part of waiter_poll
--   that drops the waiter of a callback whose return is not 0. What the server asks of the device
--   handler is the type HandlerCall. Permission, Passwords and Connection prove.
-- - DiscoverClient: ui/common/discover-client.c. discover_client_process and the functions it
--   calls on the client's copy of the devices; the calls of the user interface's operations are
--   the list `calls`. Requests: discover_client_boot, discover_client_cancel_default and
--   discover_client_send_*, as the messages that they write. Mirror and Delivery prove over
--   DiscoverServer, one for each direction.
-- - Tests: the theorems at concrete inputs, and runs.
--
-- How the parts meet: a message from Transport carries a payload that the deserialisers of
-- Protocol turn into Types. The server hands a boot command to device_handler_boot, a temporary
-- autoboot option to device_handler_apply_temp_autoboot. The configuration is an argument of the
-- handler's functions, where the code calls config_get. DiscoverServer takes messages apart with
-- the deserialisers of Protocol and makes its own with the serialisers; its calls of the device
-- handler are values, which DeviceHandler's operations of the same names carry out. DiscoverClient
-- reads what DiscoverServer writes, and the other way round.
--
-- Choices: C strings are lists of bytes without 0, a null pointer is `none`. Lengths are numbers
-- that wrap at 2^32 where the code keeps them in a uint32_t; an int is kept as its 32-bit pattern,
-- and the tests that compare it read the upper half of the patterns as negative. A bool is read
-- from any nonzero byte as true; unaligned loads are taken to work. Allocations succeed, but for
-- the array whose size the peer chooses. A deserialiser's output is the structure it fills on
-- success; what it leaves on failure is not seen. Pointers to devices and options are compared by
-- an address in the record; fields of shared objects are functions of the address. strcmp on a
-- null pointer, which the language leaves open, matches nothing. The result `none` of the
-- handler's operations is the failed assertion of waiter_remove. A boot order is taken to be
-- shorter than 2^31 - 3 entries.
--
-- Loops: parse_params of Event, parse_pairs of ParserConf and read_bootdevs of BootOrder run on
-- the length of their text, of which each round takes at least one byte. write_loop and read_loop
-- run on fuel, since a call of read or write takes any number of bytes between 1 and what is left,
-- or fails; the fuel is the number of bytes, which is enough as each round takes at least one or
-- ends the loop. All other loops are structural.
--
-- Not modelled: the parsers of the single boot loaders, paths, the sources of devices (udev,
-- network, device mapper), mounting and snapshots, the other platform settings, and the screens of
-- the user interfaces. The parsers and the platforms' settings are pure and can be added; the
-- others are system calls.
pub mod Base
pub mod Talloc
pub mod Types
pub mod CString
pub mod Protocol
pub mod Url
pub mod DeviceHandler
pub mod Boot
pub mod Resource
pub mod ParamList
pub mod BootOrder
pub mod Interfaces
pub mod Event
pub mod ParserConf
pub mod DiscoverServer
pub mod DiscoverClient
pub mod Tests
