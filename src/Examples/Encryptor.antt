-- ===== src/Examples/Encryptor.antt =====
-- src/examples/encryptor/encryptor.c. The cipher is an argument: what `aes_encrypt_ctr` writes for so many
-- bytes.
use d2sc.Prelude.{
  ℕ, ◌+◌, ◌-◌, ◌%◌, ◌^◌, ◌≤◌, ◌<◌, ◌≡◌, refl, true, false, List, ◌++◌, arith, leb, if◌then◌else◌,
  length, take, drop, Outcome, done, fault, ◌>>=◌,
}
use d2sc.Common.{act_tonf, Mbuf, set_meta}
use d2sc.PktHelper.{udp_hdr, is_some}
use d2sc.Examples.{Progress, count}

-- A packet with its length, and the bytes of its buffer from behind the place of a UDP header on.
pub record Frame : Type 0 where
  pub pkt : Mbuf
  pub pkt_len : ℕ
  pub room : List ℕ

-- The headers before the payload: Ethernet, IPv4 and UDP.
abbrev pub hlen : ℕ
hlen = 14 + 20 + 8

-- The length of the payload, a uint16_t.
abbrev pub plen : Frame → ℕ
plen f = ((f.pkt_len + 2 ^ 32) - hlen) % 65536

pub record Encryptor : Type 0 where
  pub progress : Progress
  pub dest : ℕ

abbrev pub to_dest : ℕ → Mbuf → Mbuf
to_dest dest pkt = set_meta pkt (record pkt.info { act = act_tonf; dst = dest % 65536 })

-- The first `n` bytes are encrypted in place; more than the buffer has would be written behind it.
unfoldable pub encrypt_room : (List ℕ → List ℕ) → ℕ → List ℕ → Outcome (List ℕ)
encrypt_room aes n room =
    if leb n (length room) then done (aes (take n room) ++ drop n room) else fault

unfoldable pub packet_handler :
    (List ℕ → List ℕ) → Encryptor → Frame → Outcome (ℕ × Frame × Encryptor)
unfolding udp_hdr
packet_handler aes s f = do
  room ← (if is_some (udp_hdr f.pkt) then encrypt_room aes (plen f) f.room else done f.room)
  done (
    0,
    record f { pkt = to_dest s.dest f.pkt; room = room },
    record s { progress = count f.pkt s.progress },
  )

-- A UDP packet that is not shorter than its headers, and whose buffer holds it, has exactly its payload
-- encrypted.
pub packet_handler-encrypts :
    (aes : List ℕ → List ℕ) (s : Encryptor) (f : Frame) (n : ℕ)
    → is_some (udp_hdr f.pkt) ≡ true
    → f.pkt_len ≡ hlen + n
    → n < 65536
    → n ≤ length f.room
    → packet_handler aes s f
      ≡ done (
        0,
        record f { pkt = to_dest s.dest f.pkt; room = aes (take n f.room) ++ drop n f.room },
        record s { progress = count f.pkt s.progress },
      )
unfolding packet_handler encrypt_room
packet_handler-encrypts aes s f n udp e small fits =
    let same : plen f ≡ n = omega arith in
    let inside : leb n (length f.room) ≡ true = ground arith in rw (udp, same, inside) refl

-- A UDP packet that is shorter than its headers is encrypted past the end of its buffer, if that has less
-- than 65494 bytes behind them.
pub packet_handler-overruns :
    (aes : List ℕ → List ℕ) (s : Encryptor) (f : Frame)
    → is_some (udp_hdr f.pkt) ≡ true
    → f.pkt_len < hlen
    → length f.room < 65494
    → packet_handler aes s f ≡ fault
unfolding packet_handler encrypt_room
packet_handler-overruns aes s f udp short few =
    let out : leb (plen f) (length f.room) ≡ false = ground arith in rw (udp, out) refl
