-- ===== src/Node/Play.antt =====
-- Scheduler::play_session of scheduler_sysmon.cc: turns of its loop, and the loop over any number of
-- them. Between the halves of its turns other threads refill the session's next block and change
-- its state.
pub mod Packets
pub mod Turns
use myyima.Prelude.{ℕ, Bool, true, false, List, [], ◌∷◌, ◌++◌, if◌then◌else◌}
use myyima.Prelude.Int.{ℤ}
use myyima.Outcome.{Outcome, ok, ◌>>=◌}
use myyima.Messages.{Ptr}
use myyima.Flib.Retrieve.{Disk}
use myyima.Flib.Cache.{Memory}
use myyima.Flib.Interface.{Flib, Heap, flib_last_pkt_of_block}
use myyima.Node.Session.{SessionState, Session, Effect}
use myyima.Node.Scheduler.{Sent, not_playing, no_packet, not_due, sent, send_packet, fetch_packet}

-- What another thread does meanwhile: the file library works on a FLIB_LAST_PKT_OF_BLOCK, of this
-- session or of another one, or the state of this session is changed.
pub data Other : Type 0 where
  release : (id : ℕ) → Ptr → Other
  set_state : SessionState → Other

-- What one turn meets from outside: the clock, twice, how often sendto would block, and what other
-- threads do before the turn and before the second look at the session's state. The file library
-- works under FLIB_access_mutex, as Flib_getNextPacket does.
pub record Turn : Type 0 where
  pub now : ℤ
  pub after : ℤ
  pub refusals : ℕ
  pub before : List Other
  pub between : List Other

-- What the loop works on, with all that it has sent.
pub record Playing : Type 0 where
  pub flib : Flib
  pub cmd_seq_no : ℕ
  pub session : Session
  pub effects : List Effect

unfoldable pub interfere : Heap → Disk → Playing → Other → Outcome Playing
interfere h d w (release id block) = do
  (f, found) ← flib_last_pkt_of_block h d id block w.flib
  ok (record w { flib = f })
interfere h d w (set_state state) =
    ok (record w { session = record w.session { current_session_state = state } })

unfoldable pub interfere_all : Heap → Disk → Playing → List Other → Outcome Playing
unfolding interfere
interfere_all h d w [] = ok w
interfere_all h d w (o ∷ os) = interfere h d w o >>= λ w'. interfere_all h d w' os

-- The state after a packet has left; the packet's header has changed in memory.
abbrev pub after_sending : Playing → Memory → ℕ → Session → List Effect → Playing
after_sending w mem seq s es = record {
  flib = record w.flib { cache = record w.flib.cache { memory = mem } };
  cmd_seq_no = seq;
  session = s;
  effects = w.effects ++ es;
}

abbrev pub after_fetching : Playing → Flib × Session × Bool → Outcome (Playing × Bool)
after_fetching w (f, s, more) = ok (record w { flib = f; session = s }, more)

-- The second half of a turn, once other threads have done what they do.
unfoldable pub fetch_next : (ℤ → ℕ → ℤ) → Disk → Playing → Outcome (Playing × Bool)
fetch_next delivery d w = fetch_packet delivery d w.flib w.session >>= after_fetching w

-- After the packet: the next one, unless the loop has ended.
unfoldable pub finish_turn :
    (ℤ → ℕ → ℤ) → Heap → Disk → List Other → Playing → Sent → Outcome (Playing × Bool)
unfolding interfere_all fetch_next
finish_turn delivery h d others w (sent mem seq s es) =
    interfere_all h d (after_sending w mem seq s es) others >>= fetch_next delivery d
finish_turn delivery h d others w _ = ok (w, false)

-- The first half of a turn, and the second.
unfoldable pub send_and_fetch :
    (ℤ → ℕ → ℤ) → Heap → Disk → Turn → Playing → Outcome (Playing × Bool)
unfolding finish_turn
send_and_fetch delivery h d t w =
    finish_turn delivery h d t.between w
      (send_packet t.refusals t.now t.after w.flib.cache.memory w.cmd_seq_no w.session)

-- One turn of the loop, and whether the loop goes on.
unfoldable pub turn : (ℤ → ℕ → ℤ) → Heap → Disk → Turn → Playing → Outcome (Playing × Bool)
unfolding interfere_all send_and_fetch
turn delivery h d t w = interfere_all h d w t.before >>= send_and_fetch delivery h d t

abbrev pub go_on : (Playing → Outcome (Playing × Bool)) → Playing × Bool → Outcome (Playing × Bool)
go_on rest (w, true) = rest w
go_on rest (w, false) = ok (w, false)

-- play_session, for as many turns as the list has: the result says whether it is still running.
unfoldable pub play_session :
    (ℤ → ℕ → ℤ) → Heap → Disk → List Turn → Playing → Outcome (Playing × Bool)
unfolding turn
play_session delivery h d [] w = ok (w, true)
play_session delivery h d (t ∷ ts) w =
    turn delivery h d t w >>= go_on (λ w'. play_session delivery h d ts w')
