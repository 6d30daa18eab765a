-- ===== src/Lib.antt =====
-- Verification of lwpb, a lightweight Protocol Buffers library in C.
--
-- The program: two encoders and a decoder share types and descriptors (include/lwpb/core/types.h)
-- and memory buffers (core/buf.c). `core` is short for src/lwpb/core below.
-- - The stack encoder (core/encoder.c) keeps a stack of frames, each with a buffer in the output
--   memory. A nested message or a packed block is written ten bytes behind the position of the
--   frame below and moved into place when it ends.
-- - The second encoder (core/encoder2.c) writes at a pointer, or counts bytes where it is NULL.
-- - The decoder (core/decoder.c) walks a buffer with a stack of frames and reports what it finds to
--   three handlers.
-- - The struct decoder (src/lwpb/utils/struct_decoder.c) sets its own handlers in the decoder and
--   stores the values it gets in a C structure, as a struct map says.
-- - The RPC client hands a call to a transport; the direct one (src/lwpb/rpc/direct.c) allocates two
--   buffers, calls the handlers of client and server in turn, and releases the buffers.
-- - The socket transports (src/lwpb/rpc/socket_client.c, socket_server.c) send a call over a
--   connection. socket_helper.c puts a pre-header and a header message in front, which the stack
--   encoder writes and the decoder reads; the server looks service and method up by their names.
-- - src/lwpb/utils/utils.c replaces functions of the C library.
-- - The Python bindings (python/) encode dicts with the second encoder, once to count and once to
--   write, and decode into dicts.
--
-- Which file models which part:
-- - Common: library names, Boolean tests, lists over the native numbers, lemmas on bits.
-- - Types: error codes, descriptors, unions (include/lwpb/core/types.h, core/private.h, core/misc.c)
--   and `Run`, the results of C code: a value, a fault (undefined behaviour), a failed assertion, or
--   `stuck` (no fuel left, which no run of the program is, or a loop that never ends).
-- - Buf: `struct lwpb_buf` and core/buf.c over a memory of `size` bytes; Ensures: statements on runs.
-- - Varint, Fixed: `encode_varint`, `encode_32bit`, `encode_64bit` of core/encoder.c,
--   `lwpb_encode_varint` and its kin of core/encoder2.c (here `encode_varint2`, ...), and
--   `lwpb_decode_varint` and its kin of core/decoder.c.
-- - Wire: the conversion switches (`encode_value`, `decode_value`), zig-zag encoding, wire types.
-- - Copy: `memcpy`, `memmove` and `strlen` of the C library, as documented there.
-- - Encoder: core/encoder.c; names drop the prefix `lwpb_encoder_`. Encoder2: core/encoder2.c.
-- - Decoder: `lwpb_decoder_decode`, cut into turns of its two loops. Decoder.Debug: the debug handlers
--   of core/decoder.c, with a call of printf as what it prints.
-- - Message: programs that add fields one by one, and the two sides together. Message.Tree is a
--   message with messages inside it, Message.Tree.Encode and Message.Tree.Decode (with Turns) the
--   two sides on it, Message.Tree.RoundTrip both together, and Message.Tree.Debug with
--   Message.Tree.DebugFault what the debug handlers do on it.
-- - Rpc: src/lwpb/rpc/client.c, server.c, transport.c and direct.c, over any state of the world.
-- - Utils: src/lwpb/utils/utils.c; `utils_memcpy` is `__lwpb_memcpy`, and so on.
-- - Struct: utils/struct_decoder.c and include/lwpb/utils/struct_map.h. Its handlers are given to
--   the model of the decoder; Struct.Store, Struct.Message and Struct.Calls say what they do.
-- - Socket: rpc/socket_helper.c with the descriptors of socket_protocol_pb2.c. Socket.System: the
--   calls of the operating system, a parameter. Socket.Server and Socket.Client: the two transports.
-- - Python: python/encoder.c and python/primitives.c over Python objects as trees, with the calls of
--   the Python runtime as a parameter. Python.Encoder.Dict says which message a dict stands for.
--   Python.Decoder: python/decoder.c over a heap of objects (Python.Objects), whose kinds are in
--   Python.Objects.Typed. Python.Numbers: numbers on their own.
-- - Tests: runs at concrete inputs.
--
-- State: a memory is passed from step to step; an encoder is a list of frames, the top one first, so
-- that `depth` is the length. A descriptor pointer is a position in a list of message descriptors,
-- and a field is known by its message and its index. Numbers are bit patterns; `size_t` has 64 bits,
-- and unions are read little endian. A handler is a function on the user's state.
--
-- Fuel: `encode_varint` makes ten rounds at most on a 64-bit number, `lwpb_decode_varint` eleven.
-- `lwpb_decoder_decode` has (size + 2)^32 turns for 32 frames: a turn takes a byte from the top
-- frame or pops it. The downward loop of `__lwpb_memmove` never ends within bounds, so its fuel is
-- an argument.
--
-- `pyobject_encode` recurs into nested dicts: its fuel is an argument, and the predicate that says
-- what a dict stands for bounds how deep it is.
--
-- Not modelled: Python descriptors, reference counts and default values; the macros and the tests
-- that build descriptors and struct maps; the output of the other debug macros. Handlers cannot
-- change the decoder, the client or the transport that calls them; a message end handler can read
-- whether the decoder is in packed mode.
pub mod Common
pub mod Types
pub mod Buf
pub mod Varint
pub mod Fixed
pub mod Wire
pub mod Copy
pub mod Encoder
pub mod Encoder2
pub mod Ensures
pub mod Decoder
pub mod Message
pub mod Rpc
pub mod Utils
pub mod Socket
pub mod Struct
pub mod Tests
pub mod Python
