-- ===== src/Rtsps/Front/States.antt =====
-- NextState of Server/RTSPS/rtsps_front.c.
use myyima.Prelude.{if◌then◌else◌}
use myyima.Outcome.{Outcome, ok, undefined}
use myyima.Messages.{Name}
use myyima.Flib.Names.{name_eq}
use myyima.Text.{codes}

-- The states of a connection, and NA, which NextState answers to a command that does not fit.
pub data FrontState : Type 0 where
  init start ready play pause terminate set_param req501 na : FrontState

-- The words that NextState compares a command with.
abbrev pub options_cmd : Name
options_cmd = codes "OPTIONS"

abbrev pub describe_cmd : Name
describe_cmd = codes "DESCRIBE"

abbrev pub setup_cmd : Name
setup_cmd = codes "SETUP"

abbrev pub play_cmd : Name
play_cmd = codes "PLAY"

abbrev pub pause_cmd : Name
pause_cmd = codes "PAUSE"

abbrev pub set_parameter_cmd : Name
set_parameter_cmd = codes "SET_PARAMETER"

abbrev pub teardown_cmd : Name
teardown_cmd = codes "TEARDOWN"

abbrev pub rtsp_cmd : Name
rtsp_cmd = codes "RTSP/1.0"

-- NextState. From any other state it falls off its end.
unfoldable pub next_state : FrontState → Name → Outcome FrontState
next_state FrontState.init c =
    ok (if name_eq c options_cmd then init else if name_eq c describe_cmd then start else na)
next_state FrontState.start c =
    ok (if name_eq c setup_cmd then ready else if name_eq c rtsp_cmd then req501 else na)
next_state FrontState.ready c = ok (
    if name_eq c play_cmd
    then play
    else if name_eq c setup_cmd
    then ready
    else if name_eq c set_parameter_cmd
    then set_param
    else if name_eq c rtsp_cmd
    then req501
    else na)
next_state FrontState.play c = ok (
    if name_eq c play_cmd
    then play
    else if name_eq c pause_cmd
    then pause
    else if name_eq c set_parameter_cmd
    then set_param
    else if name_eq c teardown_cmd
    then terminate
    else na)
next_state FrontState.pause c = ok (
    if name_eq c play_cmd
    then play
    else if name_eq c set_parameter_cmd
    then set_param
    else if name_eq c teardown_cmd
    then terminate
    else na)
next_state _ c = undefined
