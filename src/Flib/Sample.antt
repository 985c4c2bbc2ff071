-- ===== src/Flib/Sample.antt =====
-- A movie of one block, a cache that holds it and a session that plays it, for the tests.
use myyima.Prelude.{◌%◌, refl, false, none, some, List, [], ◌∷◌, arith, if◌then◌else◌, replicate}
use myyima.Messages.{Name, null, NptRange}
use myyima.Flib.Names.{name_eq}
use myyima.Flib.Retrieve.{Disk, Movie}
use myyima.Flib.Cache.{Cache, Malloc, IsMalloc, UsedBlock, cached, bump}
use myyima.Flib.Cache.Counts.{AreBlocks}
use myyima.Flib.Interface.{SessionInfo, Flib, Heap}
use myyima.Flib.Interface.Balance.{IsBalanced}
use myyima.Flib.Interface.Packets.{InBlock}

-- The movie "m" in the directory "d/".
abbrev pub movie : Movie
movie = record {
  name = b'm' ∷ [];
  size = 30;
  time = 5;
  num_blocks = 1;
  block_dtl =
      record { n_packets = 0; packet_lens = [] }
      ∷ record { n_packets = 2; packet_lens = 10 ∷ 20 ∷ [] }
      ∷ [];
}

abbrev pub block_1 : Name
block_1 = b'd' ∷ b'/' ∷ b'm' ∷ b'_' ∷ b'1' ∷ []

abbrev pub disk : Disk
disk = record {
  directory = b'd' ∷ b'/' ∷ [];
  movies = movie ∷ [];
  contents = λ n. if name_eq n block_1 then some (replicate 30 7) else none;
  float_gt = λ a b. false;
}

-- An allocator that finds no memory.
abbrev pub no_memory : Malloc
no_memory ps = null

pub no_memory-IsMalloc : IsMalloc no_memory
no_memory-IsMalloc ps ne = absurd (ne refl)

abbrev pub used : List UsedBlock
used = record { counter = 1; block_name = block_1; block_ptr = 1000; number_of_packets = 500 } ∷ []

abbrev pub cache : Cache
cache = record { used_blocks = used; memory = λ p. p % 256 }

pub used-AreBlocks : AreBlocks used
unfolding cached
used-AreBlocks =
    (record { at = λ e. omega arith; counted = omega arith; own_ptr = refl; own_name = refl }, tt)

-- A session that is at the first packet of the block.
abbrev pub session : SessionInfo
session = record {
  session_id = 7;
  movie_name = b'm' ∷ [];
  next_block_name = [];
  block_ptr = 1000;
  num_of_packets = 2;
  pkt_lens = 10 ∷ 20 ∷ [];
  next_block_ptr = null;
  next_block_num_of_packets = 0;
  current_packet_index = 0;
}

abbrev pub playing : Flib
playing = record { cache = cache; sessions = session ∷ [] }

pub playing-IsBalanced : IsBalanced [] playing
playing-IsBalanced = record { blocks = used-AreBlocks; counts = λ p. ground arith }

pub session-InBlock : InBlock session
session-InBlock = record { inside = omega arith; fits = omega arith; known = omega arith }

abbrev pub heap : Heap
heap = record { malloc = no_memory; new_session = some session }

abbrev pub whole : NptRange
whole = record { start_location = 0; stop_location = 5 }

-- A second session shares the block.
abbrev pub second : SessionInfo
second = record session { session_id = 8; num_of_packets = 500 }

abbrev pub playing_twice : Flib
playing_twice = record {
  cache = record cache { used_blocks = bump block_1 used };
  sessions = second ∷ session ∷ [];
}
