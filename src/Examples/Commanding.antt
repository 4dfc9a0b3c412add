-- ===== src/Examples/Commanding.antt =====
-- router.py and factory.py: requests at concrete inputs. Graphs are numbers here, and every thread's
-- checkpoint has one interrupt.
use fastapi_agent_protocol.Base.{ℕ, ◌≡◌, ◌⊎◌, refl, none, some, [], ◌∷◌, string_eq, nat_eq}
use fastapi_agent_protocol.Base.Int.{pos}
use fastapi_agent_protocol.Base.Dict
use fastapi_agent_protocol.Failure.{ok}
use fastapi_agent_protocol.Value.{
  null, int, str, list, dict, nil, Fields, end, field, get_or_null, get_field, truthy,
}
use fastapi_agent_protocol.Registry.{AgentRegistry, GraphFactory, resolve}
use fastapi_agent_protocol.RunConfig.{run_config, base_config, unpack, merge}
use fastapi_agent_protocol.Manager.{
  new_manager, active_run, start, start_begin, start_finish, start_value,
}
use fastapi_agent_protocol.Threads.{ThreadRecord, MemoryStore, memory_get}
use fastapi_agent_protocol.Threads.Store.{memory}
use fastapi_agent_protocol.ThreadState.{StateSnapshot, empty_state}
use fastapi_agent_protocol.Router.{
  json, Libraries, Server, success_envelope, get_state, history, create_thread,
}
use fastapi_agent_protocol.Router.Requests.{create_thread_read}
use fastapi_agent_protocol.Commands.{
  dispatch_command, start_command, respond_command, state_command, run_envelope, interrupt_id_of,
}
use fastapi_agent_protocol.Params.{stamped_config, dict_of}
use fastapi_agent_protocol.Commands.Starting.{HasStartedRun, IsLeft, start_command_outcome}
use fastapi_agent_protocol.Commands.Answering.{IsAnswered, respond_command_outcome}
use fastapi_agent_protocol.Commands.Envelopes.{IsAnsweredWith, dispatch_command_reply}
use fastapi_agent_protocol.Commands.Stamping.{StampsConfig, stamped_config-IsStamped}
use fastapi_agent_protocol.Factory.{ProtocolFactory, register, create_protocol_on}
use fastapi_agent_protocol.Factory.Registration.{register_runs}

abbrev pub beta : GraphFactory ℕ
beta config = ok 2

abbrev pub agents : AgentRegistry ℕ
agents = record { factories = ("beta", beta) ∷ [] }

abbrev pub paused : StateSnapshot
paused = record {
  values = end;
  next = nil;
  tasks = [];
  metadata = dict end;
  created_at = null;
  interrupts = record { id = str "i1"; value = str "sure?" } ∷ [];
}

abbrev pub libraries : Libraries ℕ
libraries = record {
  aget_state = λ graph configurable. ok paused;
  alist = λ graph. none;
  isoformat = λ v. "";
  message_to_dict = λ v. none;
  repr = λ v. "object";
}

abbrev pub thread : ThreadRecord
thread = record {
  thread_id = "t";
  metadata = field "user" (str "ann") end;
  assistant_id = none;
  created_at = "monday";
  updated_at = "monday";
}

abbrev pub server : Server ℕ MemoryStore
server = record { registry = agents; manager = new_manager; threads = ("t", thread) ∷ [] }

abbrev pub params : Fields
params = field "assistant_id" (str "beta") (field "input" (str "hello") end)

abbrev pub start_body : Fields
start_body =
    field "id" (int (pos 7)) (field "method" (str "run.start") (field "params" (dict params) end))

start_command_outcome_example :
    let after =
      start_command memory libraries server "t" thread (int (pos 7)) params "r1" "friday" in
    HasStartedRun memory libraries server after "t"
      (int (pos 7))
      (get_or_null "assistant_id" params)
      "r1"
      "friday"
    ⊎ IsLeft memory libraries server after "t" (int (pos 7))
start_command_outcome_example =
    start_command_outcome memory libraries server "t" thread (int (pos 7)) params "r1" "friday"

start_command-beta :
    (start_command memory libraries server "t" thread (int (pos 7)) params "r1" "friday").0
    ≡ run_envelope (int (pos 7)) "r1"
unfolding start_command stamped_config dict_of get_or_null get_field truthy start_value start
    start_begin start_finish resolve active_run run_config base_config unpack merge Dict.lookup
    Dict.insert Dict.erase string_eq
start_command-beta = refl

-- The thread after a run of "beta".
abbrev pub resumable : Server ℕ MemoryStore
resumable = record server { threads = ("t", record thread { assistant_id = some "beta" }) ∷ [] }

abbrev pub answer : Fields
answer = field "interrupt_id" (str "i1") (field "response" (str "yes") end)

respond_command_outcome_example :
    IsAnswered memory libraries resumable
      (respond_command memory libraries resumable "t" (int (pos 8)) answer "r2")
      "t"
      (int (pos 8))
      (interrupt_id_of memory libraries answer)
      "r2"
respond_command_outcome_example =
    respond_command_outcome memory libraries resumable "t" (int (pos 8)) answer "r2"

dispatch_command_reply_example :
    IsAnsweredWith memory libraries server
      (dispatch_command memory libraries server "t" (some (dict start_body)) "r1" "friday")
      (get_or_null "id" start_body)
      (get_or_null "method" start_body)
unfolding memory memory_get Dict.lookup string_eq
dispatch_command_reply_example =
    dispatch_command_reply memory libraries server "t" thread start_body "r1" "friday" refl

abbrev stamped : Fields
stamped =
    field "configurable"
      (dict (
        field "model" (str "small")
          (field "session_metadata" (dict (field "user" (str "ann") end)) end)))
      end

stamped_config-IsStamped_example :
    StampsConfig
      (dict (field "configurable" (dict (field "model" (str "small") end)) end))
      (field "user" (str "ann") end)
      stamped
unfolding stamped_config dict_of get_or_null get_field truthy Dict.lookup Dict.insert string_eq
stamped_config-IsStamped_example =
    stamped_config-IsStamped
      (dict (field "configurable" (dict (field "model" (str "small") end)) end))
      (field "user" (str "ann") end) stamped refl

create_thread_read_example :
    let after = (create_thread memory libraries server none "n" "sunday").1 in
    (get_state memory libraries after "n" ≡ json 200 (dict (empty_state "n")))
    × (state_command memory libraries after "n" null ≡ success_envelope null (empty_state "n"))
    × (history memory libraries after "n" (pos 5) null ≡ json 200 (list nil))
create_thread_read_example = create_thread_read libraries server none "n" "sunday" null 4

-- A protocol with no agents, on which "beta" is registered late.
abbrev protocol : ProtocolFactory ℕ MemoryStore
unfolding create_protocol_on
protocol = create_protocol_on none (("t", thread) ∷ []) 500 "15.0"

register_runs_example :
    (start_command memory libraries
      (register protocol "beta" beta).server
      "t"
      thread
      (int (pos 7))
      params
      "r1"
      "friday").0
    ≡ run_envelope (int (pos 7)) "r1"
unfolding create_protocol_on stamped_config dict_of get_or_null get_field truthy active_run
    run_config base_config unpack merge Dict.lookup Dict.insert Dict.erase string_eq
register_runs_example =
    register_runs memory libraries protocol "t" thread (int (pos 7)) params "r1" "friday" "beta"
      beta
      (field "configurable"
        (dict (field "session_metadata" (dict (field "user" (str "ann") end)) end)) end)
      2
      ((
        "configurable",
        dict (
            field "thread_id" (str "t")
              (field "session_metadata" (dict (field "user" (str "ann") end)) end)),
      )
        ∷ [])
      refl refl refl refl refl refl
