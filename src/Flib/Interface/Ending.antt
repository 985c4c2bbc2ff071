-- ===== src/Flib/Interface/Ending.antt =====
-- The end of a movie in interface.c: after the last block the search for the next one starts
-- again, and a session that is torn down with MovieEndFlg keeps its users in the cache.
use myyima.Prelude.{
  ℕ, ◌+◌, ◌<◌, ◌≡◌, refl, true, some, List, [], arith, if◌then◌else◌, length, total, remove_first,
  total-remove_first,
}
use myyima.Outcome.{ok}
use myyima.Messages.{Name, Ptr}
use myyima.Flib.Names.{block_name, get_block_num}
use myyima.Flib.Retrieve.{
  Disk, Movie, sprintf, block_name_size, get_movie_details, get_next_block_name, exists_file,
}
use myyima.Flib.Cache.Counts.{is_at, users}
use myyima.Flib.Interface.{SessionInfo, Flib, has_id, find_session, flib_tear_down}
use myyima.Flib.Interface.Balance.{IsBalanced, holds, held}

-- The next block of a block of the same movie has the next number, if its file exists.
pub get_next_block_name-some :
    (d : Disk) (movie block : Name) (m : Movie)
    → get_movie_details d movie ≡ some m
    → length (block_name d.directory m.name (get_block_num block + 1)) < block_name_size
    → get_next_block_name d movie block
      ≡ ok (
          some (
            if exists_file d (block_name d.directory m.name (get_block_num block + 1))
            then block_name d.directory m.name (get_block_num block + 1)
            else []))
unfolding get_next_block_name sprintf
get_next_block_name-some d movie block m e short = rw (e, get_next_block_name) (ground arith)

-- From an empty name, which is what stands for the next block after the last one of a movie,
-- getNextBlockName starts over with the movie's first block, if its file exists and its name fits
-- into the buffer.
pub get_next_block_name_wraps :
    (d : Disk) (movie : Name) (m : Movie)
    → get_movie_details d movie ≡ some m
    → exists_file d (block_name d.directory m.name 1) ≡ true
    → length (block_name d.directory m.name 1) < block_name_size
    → get_next_block_name d movie [] ≡ ok (some (block_name d.directory m.name 1))
unfolding get_block_num
get_next_block_name_wraps d movie m e file short =
    rw (get_next_block_name-some d movie [] m e short) (rw file)

-- From right counts, a teardown with MovieEndFlg set takes the session out of the list and leaves
-- the cache as it is: each block goes on counting the pointers that the session held, and so has
-- more users than are left for it if the session held it.
pub flib_tear_down_leaks :
    (id : ℕ) (s : SessionInfo) (flight : List Ptr) (f : Flib)
    → IsBalanced flight f
    → find_session id f ≡ some s
    → (f' : Flib) × (flib_tear_down id true f ≡ ok (f', true))
      × (f'.sessions ≡ remove_first (has_id id) f.sessions)
      × (f'.cache ≡ f.cache)
      × ((p : Ptr)
          → users p f'.cache.used_blocks ≡ held p f'.sessions + total (is_at p) flight + holds p s)
unfolding flib_tear_down
flib_tear_down_leaks id s flight f v e = (
  record f { sessions = remove_first (has_id id) f.sessions },
  rw (e, flib_tear_down) refl,
  refl,
  refl,
  λ p. omega (arith, v.counts p, total-remove_first (holds p) (has_id id) s f.sessions e),
)
