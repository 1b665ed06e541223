-- ===== src/Tests/Portable.antt =====
-- The theorems on the command ring, the block devices and the C library at concrete states.
use xasmos.Base.{
  ℕ, ◌+◌, ◌-◌, ◌*◌, ◌%◌, ◌<◌, ◌≡◌, ◌≢◌, refl, false, arith, ltb, ◌==◌, if◌then◌else◌, leb, ◌&&◌,
  some, [], ◌∷◌, ◌++◌, update,
}
use xasmos.Xqueue.{
  Command, Channel, IsChannel, xqueue_submit_command, xqueue_poll_completion, pending, Turns-fifo,
  submits, polls, stop,
}
use xasmos.Block.Device.{ok, Buffer, blk_read, blk_write}
use xasmos.Block.Ramdisk.{RamDisk, rd_device}
use xasmos.Block.Laws.{ramdisk_round_trip}
use xasmos.Exfs.GroupMap.{GMap}
use xasmos.Xerlibc.Memory.{Memory, memmove, in_object, memmove_lem}
use xasmos.Xerlibc.Numbers.{xl_u64_dec, dec_value, dec_value-xl_u64_dec}

abbrev no_command : Command
no_command = record {
  operation_type = 0;
  source_address = 0;
  target_address = 0;
  payload_length = 0;
  security_token = 0;
}

abbrev disk_read : Command
disk_read = record {
  operation_type = 1;
  source_address = 4096;
  target_address = 8192;
  payload_length = 512;
  security_token = 7;
}

-- One command waits in the last cell of the ring.
abbrev ring : Channel
ring = record { commands = λ i. if i == 255 then disk_read else no_command; head = 255; tail = 0 }

ring-IsChannel : IsChannel ring
ring-IsChannel = record { head_lt = omega arith; tail_lt = omega arith }

abbrev ring_longer : Channel
ring_longer = record ring { commands = update ring.commands 0 no_command; tail = 1 }

abbrev ring_shorter : Channel
ring_shorter = record ring_longer { head = 0 }

submitted : xqueue_submit_command no_command ring ≡ some ring_longer
unfolding xqueue_submit_command
submitted = refl

polled : xqueue_poll_completion ring_longer ≡ some (disk_read, ring_shorter)
unfolding xqueue_poll_completion
polled = refl

-- A command is submitted, and the one that waited is polled.
Turns-fifo_example : pending ring ++ (no_command ∷ []) ≡ (disk_read ∷ []) ++ pending ring_shorter
Turns-fifo_example =
    Turns-fifo ring ring_shorter (no_command ∷ []) (disk_read ∷ []) ring-IsChannel
      (submits submitted (polls polled stop))

abbrev disk : RamDisk
disk = record { mem = λ _. 0; sector_size = 512; sector_count = 4 }

abbrev counting : Buffer
counting i = i % 256

ramdisk_round_trip_example :
    (r' : RamDisk) × (b : Buffer) × (blk_write (some (rd_device disk)) 1 2 (some counting)
      ≡ (ok, some (rd_device r')))
    × (blk_read (some (rd_device r')) 1 2 (some (λ _. 9)) ≡ (ok, some b))
    × ((i : ℕ) → b i ≡ (if ltb i (2 * 512) then counting i else 9))
    × ((j : ℕ)
        → r'.mem j ≡ (
            if leb (1 * 512) j && ltb j (1 * 512 + 2 * 512)
            then counting (j - 1 * 512)
            else disk.mem j))
ramdisk_round_trip_example =
    ramdisk_round_trip disk 1 2 counting (λ _. 9) (omega arith) (omega arith) (omega arith)

abbrev groups : GMap RamDisk
groups = record {
  dev = rd_device disk;
  spb = 8;
  total = 128;
  gb = 64;
  ngroups = 2;
  slot = λ g. g;
  written = λ g. g == 1;
  free = λ g. 40 + g;
  cache = λ _. record { bits = λ _. 0; g = 0; valid = false; dirty = false; stamp = 0 };
  clock = 0;
}

memmove_lem_example :
    memmove 102 100 4 (λ a. a) 104 ≡ (if in_object 102 4 104 then 100 + (104 - 102) else 104)
memmove_lem_example = memmove_lem 102 100 4 (λ a. a) 104

-- "ab"
abbrev text : Memory
text a = if a == 50 then b'a' else if a == 51 then b'b' else 0

text_bytes : (i : ℕ) → i < 2 → text (50 + i) ≢ 0
text_bytes i p = ground arith

dec_value-xl_u64_dec_example : dec_value 0 (xl_u64_dec 9072) ≡ 9072
dec_value-xl_u64_dec_example = dec_value-xl_u64_dec 9072 (omega arith)
