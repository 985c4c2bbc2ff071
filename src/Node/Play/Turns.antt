-- ===== src/Node/Play/Turns.antt =====
-- The loop of Scheduler::play_session ends: each turn that goes on uses up a packet of the blocks
-- that the file library has read for the session, and the file library reads one block for a
-- release.
use myyima.Prelude.{ℕ, ◌+◌, ◌*◌, ◌≡◌, Bool, false, ◌==◌, count}
use myyima.Flib.Retrieve.{num_pkts}
use myyima.Flib.Interface.{Flib}
use myyima.Node.Session.{Session}
use myyima.Node.Play.{Turn, Playing, Other, release, set_state}
use myyima.Node.Play.Packets.{HasPackets}

-- The loop works on the session `id`, for which at most `n` packets are left.
abbrev Works : ℕ → ℕ → Playing → Type 0
Works id n w = HasPackets id n w.flib × (w.session.session_id ≡ id)

-- The same, of what one half of a turn returns.
abbrev Keeps : ℕ → ℕ → Flib × Session × Bool → Type 0
Keeps id n (f, s, more) = HasPackets id n f × (s.session_id ≡ id)

-- What the work of other threads adds: a block for a release of the session.
abbrev pub is_release : ℕ → Other → Bool
is_release id (release id' block) = id' == id
is_release id (set_state state) = false

abbrev pub refills : ℕ → Turn → ℕ
refills id t = num_pkts * (count (is_release id) t.before + count (is_release id) t.between)
