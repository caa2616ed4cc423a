-- ===== src/Lib.antt =====
-- Vector clocks, version vectors, messages and transports: a verification library for the Go module
-- `causalclock`.
--
-- The program and its model. Paths are from the repository's root.
--
-- `clock/clock.go` and `version/vector.go` hold one data structure twice: a map from names to
-- counters, of int64 in the one and of uint64 in the other. `Counter` is the interface of a counter
-- type (zero, increment with its wrap, the test `<`, the test for zero, the decimal format) with
-- its laws, and its children are the two instances. `Counters` is the data structure over any
-- counter type: `Counters.Defs` has the state and `NewClock`, `Copy`, `Increment`, `Get`, `Set`,
-- `Merge`; `Counters.Compare` has `Compare` and the tests that wrap it; `Counters.Listing` has
-- `Nodes`, `Len`, `IsEmpty` and `String`. `Clock` is `Counters` at int64 and `Version` at uint64,
-- with the names of `version/vector.go`. A pointer that may be nil is an `Option`, and so is the
-- map of the struct, which is nil in the zero value. A call of a changing method on a nil pointer
-- panics in Go and is left out by the types. `Counters.Spec` states what a comparison promises, on
-- the values that `Get` returns; `Counters.Order` has the proofs for the code, and the other
-- children build on it. `Clock.Parse` is `ParseClock`, with `Base.Text` for what it uses of the
-- package `strings` and `Base.Scan` for `fmt.Sscanf` of one decimal int64. The errors of Go carry a
-- text; the model keeps what the text names.
--
-- `Causality` puts the data structure to the use that its documentation describes: nodes that
-- increment at every event, send copies, and merge what they receive before they increment. A run
-- is a sequence of such events in any order, with messages lost, doubled and overtaken, and
-- happened-before is the relation that the order of events at each node and the messages generate.
--
-- A Go map is the list of its entries with distinct keys, and a `range` loop meets them in the
-- order of the list. Go leaves that order open. `Counters.Determinism` is about answers that may
-- not depend on it, and `Counters.Abstract` is the quotient of the valid maps by that order. A Go
-- string is the list of its bytes.
--
-- `message/` is `Message`: `Message.Types` and `Message.Validate` are `message/message.go`,
-- `Message.Clocks` has the loops that take a clock apart and count it up again,
-- `Message.Serializer` has `Marshal` and `Unmarshal` of `message/cbor.go`, `message/json.go` and
-- `message/json_helpers.go`, and `Message.Registry` is `message/serializer.go`;
-- `Message.Registered` is about the two together. The encoding of the helper struct into bytes is
-- the parameter `Codec`: the CBOR package is not part of the repository. `Message.Cbor` is
-- `NewCBORSerializer`, with what the package makes of its options as a parameter. For JSON,
-- `Message.Json` is an instance of the parameter, `json_codec`: the text that the encoder of
-- `encoding/json` writes for the struct `messageJSON` with its tags, and a decoder that reads texts
-- in the form that the encoder writes, without spaces and with the fields in the order of the
-- struct. What the decoder makes of other texts is a parameter of `json_codec`, and so is whether a
-- payload of no bytes is nil, which the model of messages does not tell. `Base.Quote` has the
-- strings of JSON with their escapes, `Base.Base64` the payload, and `Base.Json` numbers and maps.
-- A writer of these puts a value in front of the text that follows it. The loop of
-- `validateSenderID` decodes UTF-8 rune by rune (`Base.Runes`). The clock of the system is an
-- argument, and a time is its seconds and nanoseconds (`Base.Time`).
--
-- `transport/` is `Transport`: `Transport.Types` is `transport/transport.go`, `Transport.Codec` the
-- wire format of `transport/tcp.go`, `Transport.Memory` is `transport/memory.go`. A panic is an
-- outcome of its own beside values and errors. In `Transport.Memory.Link` a connection is the pair
-- of ends that `Dial` makes, because the two share their queues; the other ends of channels are the
-- queues' tokens. A context is whether it is done, and `pick` is the choice of a `select` with
-- several ready cases. A method that takes its locks once runs whole; the parts of `Send` and
-- `Recv` between which other calls can come are also given one by one, and
-- `Transport.Memory.Wakeup` has their interleavings on one queue. `Transport.Memory.Net` has the
-- listeners and the transport, and `Transport.Memory.Session` goes through a whole session.
--
-- `Transport.Tcp` is the rest of `transport/tcp.go`. `Transport.Tcp.Conn` is a connection whose
-- socket is two streams of bytes: those that arrive before the stream ends or times out, and those
-- that left. A failing write is an argument, with the bytes that had left by then.
-- `Transport.Tcp.Net` has the transport and the listener, with a store of the connections that
-- `Dial` returned. `Transport.Tcp.Overlap` has the calls of `Send`, `Recv` and `Close` that overlap
-- on one connection.
--
-- `Transport.Mock` is `transport/mock.go`. `Transport.Mock.Conn` is the connection: hooks are
-- functions, a hook that returns nothing is a number, and a call of it is part of the result.
-- Channels hold 64 elements, and a call that finds no ready case of its `select` is an outcome,
-- `blocked`. `Send`, `Recv` and `Accept` take their lock before the `select` only, so each is also
-- given as two parts between which other calls can come; so is `PeekMessage`, before it puts the
-- message back. `Transport.Mock.Calls` has their interleavings on one connection.
-- `Transport.Mock.Net` has the transport and the listeners, in stores that the maps and channels
-- point into.
--
-- Fuel and bounds. The loop of `Recv` takes two rounds of fuel: the first takes the notification,
-- so that the second does not start another. The reader of a map of JSON takes the length of the
-- text as fuel, and each entry takes at least one byte. Decimal numbers are printed with twenty
-- digits at most, enough for 64 bits. Lengths, and the size that `Message.Size` returns, are
-- unbounded numbers.
--
-- `Base` has the shared helpers. `Tests` has runs on concrete inputs, and each theorem that has
-- hypotheses at inputs that meet them.
--
-- Not modelled: the goroutine that a cancelled `Accept` of TCP leaves behind; what the decoder of
-- JSON makes of texts in another form than the encoder's, the CBOR package; the addresses that
-- sockets print; the fields of the in-memory and the mock transport that no code reads; the
-- getters, which are fields; `types.go`, which exports names again.
pub mod Base
pub mod Counter
pub mod Counters
pub mod Clock
pub mod Version
pub mod Causality
pub mod Message
pub mod Transport
mod Tests
