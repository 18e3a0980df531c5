-- ===== src/NfLoop/Signals.antt =====
-- An NF that gets SIGINT or SIGTERM, from the turn in which the signal has come to the end of its process.
use d2sc.Messages.{MsgIo}
use d2sc.Buffers.{PktIo}
use d2sc.NfLoop.{Turn, NfState}

module _ (pio : PktIo) (io : MsgIo) where
  -- The NF's state at a turn, before a signal.
  abbrev came : Turn → NfState pio io → NfState pio io
  came t s = record s {
    dp = record s.dp { shared = t.others s.dp.shared };
    statics = t.threads s.statics;
  }
