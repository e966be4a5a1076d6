-- ===== src/Lib.antt =====
-- Verification library of visio-schema: a model of the Python package under
-- python/visio_schema, file by file, and the theorems that make it correct.
--
-- Parts and files:
--   Common     shared names: lists over native numbers, dicts, sets, bytes, exceptions.
--   Wire       Header: proto/visio_schema/v1/wire/header.proto. Frame: wire/codec/frame.py,
--              crc16.py and cobs.py. Message: wire/message.py. Framing: transport/framing.py.
--              Recordings: wire/recordings.py. Ota: wire/ota.py, with Relay for the relay: Loop
--              its send loop, Call the whole call. Diag: wire/diag.py, the catalogue and the read
--              of a file.
--   Routing    Channel: routing/channel.py and the ids of wire/control.py. Registry:
--              routing/registry.py, one function for each method of ChannelRegistry.
--   Transport  Queue: transport/queue.py. FramedFd: transport/framed_fd.py, with Link for
--              transport/link.py.
--   Mcap       Crypto: mcap/crypto.py, with Reading, Opening and Layout for its theorems. Records and
--              Writer: mcap/writer.py; Endpoint: mcap/writer_endpoint.py. Replay:
--              mcap/reader_endpoint.py.
--   Settings   SealedBody: settings_qr/sealed_body.py.
--   Tests      runs at concrete inputs, and the theorems applied at such inputs.
--
-- A method is a function from the state of its object to the new state and the result; an
-- exception is a value of `Result`. A byte string is a list of numbers, and a theorem says
-- `IsBytes` where it needs them below 256. Log lines are left out.
--
-- protobuf, binascii.crc_hqx and the cobs package are not part of the repository: they are the
-- fields of `Codec`, and `IsLawful` states what their documentation promises. Tests/Codecs.antt
-- has a concrete codec that keeps these promises. google.protobuf.Timestamp is a type parameter,
-- since the codec only copies it. A SyncPoint is copied through its own bytes, which protobuf
-- reads back unchanged, so the model copies it.
--
-- The loop of `extract_frames` takes as fuel one more than the bytes in the buffer: each round
-- passes a delimiter. `extract_frames-split` proves that this is enough.
--
-- The I/O thread of a FramedFdEndpoint is a function of what it meets: each `Turn` is one
-- iteration, with what select found and what os.read, os.write and the factory answer; the
-- loop of `_pump` is a recursion on the outbox, since each round that goes on takes a frame from
-- it. Sends come between the iterations, since they hold the outbox lock. `Traffic` is the
-- sending side of one link, a step relation on sends and pumps. The wake pipe, the start and the
-- join of the thread and the tty set-up are left out.
--
-- A pull of a recording reads the answers of the device and the bytes of each socket from
-- functions of the number of the open. `pull_loop` and `list_all_recordings` run on fuel; the
-- theorems on their ends say how much is enough. The read of a diagnostic file is a function of
-- what each recv meets, a reply or nothing and whether the deadline is past then; where these are
-- at their end the call still waits.
--
-- The digests and the cipher of an encrypted recording are the fields of `Primitives`, from
-- hashlib, hmac and the cryptography package; `IsStream` states that ChaCha20 gives the keystream
-- of its key and nonce from a block on and that XOR undoes itself.
--
-- A sealed body is the dict that json.loads gives, in `Value`; base64 is the record `Base64`, and
-- its `IsLawful` says that the decoder undoes the encoder.
--
-- A Writer of the mcap package is the record `WriterApi`, with what its file holds; `Keeps` states
-- that every record is kept as given and that no id is given out twice in a file. The recording
-- writer refines `Recording`, its parts as lists of rows without ids and tables. The thread of the
-- recording endpoint takes part in a step relation with its producers and its owner. A replay
-- takes the rows of read_mcap, each with whether a stop is seen before it or in its delay; a
-- parameter serializes a DeviceInfo, and `Parses` says that it reads back.
--
-- The relay of an update is a function of `World`, what its callbacks and its clock answer, one
-- `Tick` for each iteration of the send loop. Where an input is at its end, the wait or the loop
-- that reads it still goes on: only the clock ends it, or what recv answers. A time is a natural
-- number and a status is given parsed. The texts of errors and outcomes are left out.
--
-- Not modelled: the reader, the dataset format and the display, which this library has not
-- reached; the codes of settings_qr beyond the sealed body, the envelope and the ingest, likewise;
-- the native bindings, the C++ and TypeScript libraries and the generated protobuf code, which are
-- not this package's own Python; the command lines and tools, which are input and output.
mod Common
pub mod Wire
pub mod Routing
pub mod Transport
pub mod Mcap
pub mod Settings
mod Tests
