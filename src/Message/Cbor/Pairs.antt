-- ===== src/Message/Cbor/Pairs.antt =====
-- Clocks of more nodes than the decoder of CBOR takes.
use causalclock.Clock.Types.{Clock}
use causalclock.Message.Types.{Message}
