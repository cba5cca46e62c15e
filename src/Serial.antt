-- ===== src/Serial.antt =====
-- `hpSerialRead::hpRead` (src/hpSerialRead.cpp): the state machine that finds telegrams in the bytes
-- of the serial port. What `read` returns is the input: a list with one entry for each call.
pub mod Batch
pub mod Frame
pub mod Port
pub mod Scan
pub mod Sound
pub mod Resync
use hanport_data_parser.Base.{
  ℕ, ◌+◌, Bool, true, false, not, ◌&&◌, List, [], ◌∷◌, ◌++◌, ◌==◌, if◌then◌else◌,
}
use hanport_data_parser.Base.Bytes.{Bytes}

-- The local variables of `hpRead` that outlive a chunk.
pub record Reader : Type 0 where
  pub message : Bytes
  pub reading_message : Bool
  pub end_found : Bool
  pub crc_bytes_read : ℕ

abbrev pub crc_size : ℕ
crc_size = 4

abbrev pub start : Reader
start = record { message = []; reading_message = false; end_found = false; crc_bytes_read = 0 }

-- After a byte the loop goes on, or `hpRead` returns a message.
pub data Progress : Type 0 where
  more : Reader → Progress
  complete : Bytes → Progress

-- The branch under `if(end_found)`.
pub crc_byte : Reader → ℕ → Progress
crc_byte r byte =
    if r.crc_bytes_read + 1 == crc_size
    then complete (r.message ++ byte ∷ [])
    else more (record r { message = r.message ++ byte ∷ []; crc_bytes_read = r.crc_bytes_read + 1 })

-- The body of the `for` loop.
pub read_byte : Reader → ℕ → Progress
unfolding crc_byte
read_byte r byte =
    if byte == b'/'
    then more (record r {
      message = byte ∷ [];
      reading_message = true;
      end_found = false;
      crc_bytes_read = 0;
    })
    else if byte == b'!' && r.reading_message && not r.end_found
    then more (record r { message = r.message ++ byte ∷ []; end_found = true; crc_bytes_read = 0 })
    else if r.end_found
    then crc_byte r byte
    else if r.reading_message
    then more (record r { message = r.message ++ byte ∷ [] })
    else more r

-- The `for` loop over one chunk. A return leaves the rest of the chunk unread.
pub read_chunk : Reader → Bytes → Progress
read_chunk r [] = more r
read_chunk r (byte ∷ bytes) = elim (read_byte r byte) [
  | more r' ↦ read_chunk r' bytes
  | complete m ↦ complete m
]

-- One call of `read`: no bytes or an error (`num_of_bytes <= 0`), or a chunk of at most 256 bytes.
pub data Read : Type 0 where
  nothing : Read
  chunk : Bytes → Read

-- `hpRead` either returned, with the calls of `read` that it left, or used up the calls and would
-- go on reading.
pub data ReadOutcome : Type 0 where
  returned : Bytes → List Read → ReadOutcome
  waiting : Reader → ReadOutcome

-- The `while(true)` loop, from the state `r`.
pub hp_read_from : Reader → List Read → ReadOutcome
hp_read_from r [] = waiting r
hp_read_from r (nothing ∷ reads) = hp_read_from r reads
hp_read_from r (chunk bytes ∷ reads) = elim (read_chunk r bytes) [
  | more r' ↦ hp_read_from r' reads
  | complete m ↦ returned m reads
]

unfoldable pub hp_read : List Read → ReadOutcome
unfolding hp_read_from read_chunk read_byte
hp_read reads = hp_read_from start reads
