-- ===== src/Lib.antt =====
-- micropb (micropb/ and micropb-gen/): Protobuf encoding and decoding for embedded systems.
--
-- The runtime crate and its model:
--   Wire          micropb/src/lib.rs: `Tag`, the wire types, `Presence`
--   Size          micropb/src/size.rs: the `sizeof_` functions
--   Writer        micropb/src/encode.rs: `trait PbWrite` and its `Vec<u8>`
--   Encode        micropb/src/encode.rs: `PbEncoder`, one function per method
--   Reader        micropb/src/decode.rs: `trait PbRead` with the provided `pb_read_exact`, `&[u8]`
--   Decode        micropb/src/decode.rs: `DecodeError`, `PbDecoder`, one function per method
--   Decode/Into   micropb/src/decode.rs: the methods that fill a destination of the caller (strings,
--                 bytes, packed fields, map elements) and `decode_len_record`
--   Container     micropb/src/container.rs: the container traits, and the alloc `Vec` and `String`
--   Message       micropb/src/message.rs: `MessageDecode`, `MessageEncode`
--   Field         micropb/src/field.rs: `FieldDecode`, `FieldEncode`, and both for `Option`
--   Utf8          the standard library's `from_utf8`, as a test
-- The code generator and its model:
--   PathTree      micropb-gen/src/pathtree.rs: the tree of configurations
--   TypeSpec      micropb-gen/src/generator/type_spec.rs: `PbInt` and the tables of `TypeSpec`, which
--                 name methods of the runtime; `IntSize` is in micropb-gen/src/config.rs
--   Generated     micropb-gen/src/generator/message.rs, field.rs, oneof.rs and type_spec.rs: the code
--                 that they generate for a message, as a codec over the runtime model
--   Unescape      micropb-gen/src/utils.rs: default values of `bytes` fields in C-escaped form
--   Config        micropb-gen/src/config.rs: the options and `merge`; Config/Paths is `configure` of
--                 micropb-gen/src/lib.rs and `CurrentConfig` of micropb-gen/src/generator.rs
-- Encode/, Decode/, Size/ and Reader/ hold the proofs about them, RoundTrip puts encoder, sizes and
-- decoder together, Examples has test runs and the theorems at concrete inputs. Prelude has the
-- shared helpers, and Monad the state and error monad of all methods.
--
-- Generated code. The generator prints Rust; the model is what that Rust does, as a function of
-- what it is printed from. A message is a list of members, fields (Generated/Field) and oneofs
-- (Generated/Oneof); each is a `Part` (Generated/Parts): the state in the struct, its branches of
-- the `match` on the field number, and its share of `encode` and `compute_size`. `Struct` and
-- `decode`, `encode` and `compute_size` (Generated/Message) put the parts together, with the array
-- of presence bits (Generated/Hazzer) that all of them share. Types that a field names by a path
-- (messages, enums, containers, custom fields) are the interface `Paths` (Generated/Types), which
-- a message fills for the messages that have it for a field. The laws of a part are the records
-- `PartAgrees` and `PartCarries` (Generated/Message/Carried). The unknown handler of a message is an
-- option (`Unknown` of Generated/Message). An integer field of implicit presence is checked for
-- presence before the value on the wire is cast to the type of the field. A `Box` is its contents.
--
-- State and errors. A method on `&mut self` is a function from the state to a result and the state
-- afterwards (`M` in Monad); an early return by `?` is the monad's bind, and a failing call keeps
-- the state that it left. Writer and reader are records of the trait's methods, since the crate is
-- generic over them; what the crate relies on stands in the law records `IsAppender`
-- (Encode/Output), `IsReader` (Reader/Laws), `IsStorage` and `IsVec` (Container), and `IsMap`
-- (Container/Maps), whose iterator gives the pairs in any order. A destination `&mut S` is a
-- second part of the decoder's state. What a failed read leaves in a container's spare capacity is
-- not seen. A reader that fails is taken to fail again when it is read again.
--
-- Numbers. A `u32` or `u64` is a natural number, cut to its width wherever the code shifts or
-- casts it; an `i32` or `i64` is the integer that it stands for, and its casts, shifts and `^` go
-- through the two's complement bit pattern. `usize` is unbounded: a cast of a `u32` to it is exact
-- (pointers of 32 bits or more) and the count of bytes read does not overflow. A cast of a length
-- to `u32` keeps its low 32 bits. A float is its bit pattern, a `str` its UTF-8 bytes.
--
-- Loops. The loop of `encode_varint` recurs on the accessibility of its number. The loops over
-- rounds in `1..10` recur on the rounds left. `pb_read_exact` and `skip_bytes` have as many rounds
-- of fuel as bytes to read, which is enough since each round takes a byte at least; a loop without
-- fuel answers `out_of_fuel`, which is no value of the code. The loops over a record have as many
-- rounds as the record has bytes, which is enough when each round takes a byte (for a generated
-- message see Generated/Message/Ends). The loop of `unescape_c_escape_string` has as many rounds
-- as the text has bytes. The loop of a branch of a oneof runs twice at most, since the second
-- round finds the variant that the first one has put there.
--
-- Not modelled: how the generator fills a message from its descriptor (`from_proto`, default
-- values) and prints declarations and names, fields that delegate to another field, the driver
-- that runs protoc and writes files, micropb-gen/src/descriptor.rs, which micropb-gen generates
-- itself, `StdReader` and `StdWriter`, the containers of `heapless` and `arrayvec`, which are
-- other crates. That custom fields are ready in the sense of Generated/Message/Members is a
-- hypothesis on their own code.
pub mod Prelude
pub mod Monad
pub mod Wire
pub mod Writer
pub mod Generated
pub mod Unescape
pub mod Config
pub mod Encode
pub mod Size
pub mod Reader
pub mod Container
pub mod Utf8
pub mod Decode
pub mod Field
pub mod Message
pub mod RoundTrip
pub mod PathTree
pub mod TypeSpec
mod Examples
