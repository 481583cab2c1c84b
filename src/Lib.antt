-- ===== src/Lib.antt =====
-- Verification of the C shared utility library: models of its components and the theorems that make
-- them correct. Paths are from the repository's root.
--
-- How the parts interact. src/buffer.c (byte buffers) and src/strings.c (strings) are used by
-- most of the library; src/base64.c encodes bytes into strings and decodes strings into buffers;
-- src/map.c keeps strings by key; src/utf8_checker.c checks the payload of text frames;
-- src/uws_frame_encoder.c writes WebSocket frames into a buffer, which src/uws_client.c sends, and
-- src/uws_client.c reads the frames of the peer; src/wsio.c is an IO on top of that client, and
-- keeps its sends in a list of src/singlylinkedlist.c. The request that opens a WebSocket has a
-- host of src/host_utils.c and a nonce of src/base64.c. All of them ask the allocator for memory,
-- which may refuse.
--
-- The modules.
--   Base            shared types and lemmas: sequences, memory blocks, outcomes, bit operations.
--   Buffer          src/buffer.c: Buffer.build, Buffer.append_build, Buffer.pre_build,
--                   Buffer.enlarge and Buffer.shrink are BUFFER_build, BUFFER_append_build, and so
--                   on; Buffer.Combine has BUFFER_append, BUFFER_prepend and BUFFER_clone, and
--                   Buffer.Access the functions that read a buffer. Buffer.Spec is the contract.
--   Strings         src/strings.c: the STRING_ functions under their names; Strings.Json has
--                   STRING_new_JSON, and Strings.Json.Reader an independent reader of JSON.
--   Base64          src/base64.c: the encoder; Base64.Decode is Base64_Decoder.
--   Map             src/map.c: the operations behind their tests for NULL; Map.Api adds those
--                   tests, Map.Clone has Map_Clone, and Map.Spec is the contract.
--   Utf8Checker     src/utf8_checker.c.
--   UwsFrameEncoder src/uws_frame_encoder.c: UwsFrameEncoder.encode is uws_frame_encoder_encode;
--                   UwsFrameEncoder.Reader has an independent reader of frames.
--   Uuid            src/uuid.c: Uuid.from_string, Uuid.to_string and Uuid.generate are the UUID_
--                   functions; UniqueId_Generate, code of each platform, is a parameter.
--   Wsio            src/wsio.c: one function for each function of the file, under its name without
--                   the prefix `on_underlying_`; Wsio.step is any call, Wsio.Runs has the runs.
--   Base32          src/base32.c: Base32.encode_impl is base32_encode_impl and Base32.encode_from its
--                   loop; Base32.Decode has base32_decode_impl, whose loop is decode_groups.
--   SinglyLinkedList  src/singlylinkedlist.c: items on an explicit heap, one function for each function
--                   of the file, without its prefix; SinglyLinkedList.Chain has the sequence of
--                   addresses and items that a list stands for.
--   UwsClient       src/uws_client.c: what the client does with received bytes; UwsClient.Receive has
--                   on_underlying_io_bytes_received, whose loop is receive_loop and whose switch over
--                   the opcode is process_frame; UwsClient.Upgrade reads the upgrade response,
--                   and UwsClient.Blocks is about the blocks of the two buffers.
--   UwsClient.Session  src/uws_client.c: the client with its pending sends; UwsClient.Session.Calls has the
--                   calls that open and close, those back of the underlying IO, and Calls.step is
--                   any call. The names are those of the file, without the prefix `uws_client_`.
--   UwsClient.Request  src/uws_client.c: the upgrade request, from IO_OPEN_OK to xio_send;
--                   Request.prepare_request is that part of on_underlying_io_open_complete.
--   HostUtils       src/host_utils.c: every function, under its name.
--   Vector          src/vector.c: the operations behind their test for a NULL handle; Vector.Spec
--                   has the sequence of elements that a vector stands for.
--   StringTokenizer src/string_tokenizer.c: create, create_from_char and get_next_token, with one
--                   function for each of its loops.
--   UrlEncode       src/urlencode.c: url_encode and url_decode are URL_Encode and URL_Decode; the loops
--                   have the names of what they compute.
--
-- How state is modelled. A block of memory is the list of its allocated bytes, and a result `Exec`
-- is `none` if the code would access memory outside of a block. The bytes of a new block are a
-- parameter, `Garbage`. The allocator is a parameter, `Outcomes`: a function from the number of a
-- request to whether it succeeds. A handle is an `Option`, `none` for NULL; where two handles may
-- be the same one, a Boolean argument says whether they are. size_t has 64 bits: SIZE_MAX is
-- written out where the code checks for it, and a theorem whose arithmetic would wrap has the
-- bound as a condition.
--
-- Bounds and fuel. Loops are structural on the list that they run over. The loop of
-- utf8_checker_is_valid_utf8 runs on fuel, one unit for each byte, since a round takes at least one
-- byte; the JSON reader runs on one unit more than the length of the source. The loops of
-- src/singlylinkedlist.c run on fuel too; their theorems ask for more than the list has items. The
-- loop over received frames has one unit more than the stream buffer has bytes, and a frame has at
-- least two. The digits of a port are counted in ten rounds, which is enough for an int.
--
-- What is not modelled: logging, the release of memory (only its effect on the state is), the platform
-- adapters, the options of src/uws_client.c, the state machines of
-- src/http_proxy_io.c and others, printf-style formatting, and third-party code.
mod Base
pub mod Base32
pub mod Base64
pub mod Buffer
pub mod HostUtils
pub mod Map
pub mod SinglyLinkedList
pub mod StringTokenizer
pub mod Strings
pub mod UrlEncode
pub mod Utf8Checker
pub mod Uuid
pub mod UwsClient
pub mod UwsFrameEncoder
pub mod Vector
pub mod Wsio
