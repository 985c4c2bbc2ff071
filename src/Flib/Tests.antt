-- ===== src/Flib/Tests.antt =====
-- The file library on a movie of one block.
use myyima.Prelude.{ℕ, ◌+◌, ◌≡◌, ◌↔◌, refl, true, false, none, some, [], ◌∷◌, arith, if◌then◌else◌}
use myyima.Outcome.{ok}
use myyima.Messages.{null, Ptr, NextRtpPktInfo}
use myyima.Flib.Names.{block_name, decimal, atoi, get_block_num, get_block_num-block_name}
use myyima.Flib.Retrieve.{
  PackInfo, Movie, get_movie_details, get_next_block_name, get_num_packets, get_start_block_name,
  sprintf,
}
use myyima.Flib.Cache.{Cache, local_read_block, release_used_block, cached, bump}
use myyima.Flib.Cache.Counts.{users}
use myyima.Flib.Cache.Calls.{Gains, Loses, local_read_block-Gains, release_used_block-Loses}
use myyima.Flib.Interface.{
  SessionInfo, Flib, packet_at, more_in_block, advance, flib_get_next_packet, flib_tear_down,
  flib_last_pkt_of_block, flib_play,
}
use myyima.Flib.Interface.Balance.{
  IsBalanced, held, holds, flib_tear_down-IsBalanced, flib_get_next_packet-IsBalanced,
  flib_last_pkt_of_block-IsBalanced,
}
use myyima.Flib.Interface.Play.{IsStarted, flib_play-IsBalanced}
use myyima.Flib.Interface.Packets.{InBlock, packet_at-InBlock, advance-InBlock}
use myyima.Flib.Interface.Ending.{get_next_block_name_wraps, flib_tear_down_leaks}
use myyima.Flib.Sample.{
  movie, block_1, disk, no_memory, no_memory-IsMalloc, used, cache, used-AreBlocks, session,
  playing, playing-IsBalanced, whole, heap, session-InBlock, playing_twice,
}

get_block_num_example : get_block_num (block_name block_1 block_1 120) ≡ 120
get_block_num_example = get_block_num-block_name block_1 block_1 120

abbrev asked_info : PackInfo
asked_info = record { numpkts = 0; lens = none }

abbrev got_info : PackInfo
got_info = record { numpkts = 500; lens = none }

local_read_block_example : Gains cache (record cache { used_blocks = bump block_1 used }) 1000
unfolding local_read_block cached get_num_packets get_movie_details get_block_num atoi
local_read_block_example =
    local_read_block-Gains no_memory disk cache (b'm' ∷ []) block_1 asked_info
      (record cache { used_blocks = bump block_1 used }, 1000, got_info) no_memory-IsMalloc
      used-AreBlocks (omega arith) refl

release_used_block_example : (c' : Cache) × Loses cache c' 1000
release_used_block_example = release_used_block-Loses 1000 cache used-AreBlocks (λ _. omega arith)

flib_tear_down_example :
    (f' : Flib) × (flib_tear_down 7 false playing ≡ ok (f', true))
    × IsBalanced [] f'
    × (f'.sessions ≡ [])
flib_tear_down_example = flib_tear_down-IsBalanced 7 session [] playing playing-IsBalanced refl

abbrev moved : Flib
moved = record playing { sessions = record session { current_packet_index = 1 } ∷ [] }

flib_get_next_packet_example : IsBalanced [] moved
unfolding flib_get_next_packet
flib_get_next_packet_example =
    flib_get_next_packet-IsBalanced disk 7 [] playing moved _ playing-IsBalanced refl

packet_at_example :
    (pkt : NextRtpPktInfo) × (packet_at cache.memory session ≡ ok pkt)
    × (pkt.last_pkt_flg ≡ true ↔ ◌≡◌ {A = ℕ} 1 2)
    × (pkt.block_ptr ≡ (if pkt.last_pkt_flg then 1000 else null))
packet_at_example = packet_at-InBlock cache.memory session session-InBlock

advance_example :
    (s' : SessionInfo) × (advance disk session ≡ ok s')
    × InBlock s'
    × (next : NextRtpPktInfo) × (packet_at cache.memory s' ≡ ok next)
    × (next.next_rtp_pkt_p ≡ 1010)
unfolding packet_at more_in_block
advance_example = advance-InBlock disk cache.memory session _ session-InBlock refl refl

-- The session after its last packet, with the block in flight.
abbrev finished : Flib
finished = record playing {
  sessions = record session { block_ptr = null; next_block_name = b'_' ∷ b'8' ∷ [] } ∷ [];
}

finished-IsBalanced : IsBalanced (1000 ∷ []) finished
finished-IsBalanced = record { blocks = used-AreBlocks; counts = λ p. ground arith }

flib_play_example :
    IsBalanced [] playing_twice
    × (m : Movie) × (get_movie_details disk (b'm' ∷ []) ≡ some m)
    × (s : SessionInfo) × IsStarted 8
        (b'm' ∷ [])
        (block_name (b'd' ∷ b'/' ∷ []) m.name 1)
        playing_twice
        s
unfolding flib_play local_read_block cached get_num_packets get_movie_details get_block_num atoi
    get_start_block_name get_next_block_name block_name decimal sprintf bump
flib_play_example =
    flib_play-IsBalanced heap disk 8 (b'm' ∷ []) whole [] playing playing_twice no_memory-IsMalloc
      playing-IsBalanced refl

-- With the block released nothing is left in the cache.
abbrev over : Flib
over = record {
  cache = record cache { used_blocks = [] };
  sessions = record session { block_ptr = null; next_block_name = [] } ∷ [];
}

flib_last_pkt_of_block_example : IsBalanced [] over × (true ≡ true)
unfolding flib_last_pkt_of_block get_next_block_name get_movie_details get_block_num atoi block_name
    decimal release_used_block
flib_last_pkt_of_block_example =
    flib_last_pkt_of_block-IsBalanced heap disk 7 1000 [] finished over
      (record session { block_ptr = null; next_block_name = b'_' ∷ b'8' ∷ [] }) true
      no_memory-IsMalloc finished-IsBalanced refl refl (λ e. omega arith) (omega arith) refl

get_next_block_name_example : get_next_block_name disk (b'm' ∷ []) [] ≡ ok (some block_1)
unfolding get_movie_details block_name decimal
get_next_block_name_example =
    get_next_block_name_wraps disk (b'm' ∷ []) movie refl refl (omega arith)

-- A session that has been given the first block again.
abbrev wrapped : Flib
wrapped = record playing {
  sessions = record session { block_ptr = null; next_block_ptr = 1000 } ∷ [];
}

wrapped-IsBalanced : IsBalanced [] wrapped
wrapped-IsBalanced = record { blocks = used-AreBlocks; counts = λ p. ground arith }

flib_tear_down_leaks_example :
    (f' : Flib) × (flib_tear_down 7 true wrapped ≡ ok (f', true))
    × (f'.sessions ≡ [])
    × (f'.cache ≡ cache)
    × ((p : Ptr)
        → users p f'.cache.used_blocks
          ≡ held p f'.sessions
            + 0
            + holds p (record session { block_ptr = null; next_block_ptr = 1000 }))
flib_tear_down_leaks_example =
    flib_tear_down_leaks 7 (record session { block_ptr = null; next_block_ptr = 1000 }) [] wrapped
      wrapped-IsBalanced refl
