-- ===== src/Spanner/Tests.antt =====
-- A NicSpanner (source/analytics/nicSpanner.cc) that gets a write of its registers, and then sends a packet, and a
-- HostSpanner (source/analytics/hostSpanner.cc) that gets two system calls.
use columbo.Base.{ℕ, refl, true, some, none, [], ◌∷◌, List, Option}
use columbo.Channel.Queue.{running}
use columbo.Span.NetworkEvent.{no_network}
use columbo.Span.{EventType, Event, is_type, is_potential_add}
use columbo.Tracer.Start.{Context, mmio}
use columbo.Tracer.Calls.{new_world}
use columbo.Span.NetDevice.{add_to_net_device}
use columbo.Spanner.Network.{network_handler}
use columbo.Span.Single.{add_to_nic_mmio, add_to_nic_eth}
use columbo.Tracer.Calls.{step}
use columbo.Spanner.{begin, consume_all}
use columbo.Spanner.Nic.{new_nic_spanner, handler}
use columbo.Spanner.Runs.{Runs, acted, Once, IsAmong, so_far, popped, pushed, began, called, looked}
use columbo.Spanner.Once.{marks-Once}
use columbo.Spanner.System.{Part, nic, host, network, programs, SystemRuns, turn}
use columbo.Spanner.System.SystemOnce.{system_marks-Once}
use columbo.Span.Call.{TraceEnvironment, add_to_host_call}
use columbo.Spanner.Host.{new_host_spanner}
use columbo.Spanner.Host.Interrupts.{host_handler}
use columbo.Spanner.Host.HostOnce.{host_marks-Once}

abbrev nic_event : EventType → ℕ → Event
nic_event type timestamp = record {
  type = type;
  parser_ident = 1;
  timestamp = timestamp;
  id = 7;
  addr = 4096;
  bar = 0;
  is_posted = true;
  is_read = true;
  func = none;
  network = no_network;
}

abbrev from_the_host : Context
from_the_host = record { trace_id = 3; expectation = mmio; parent_id = 9; parent_start_ts = 5 }

abbrev written_and_sent : List (Option Event)
written_and_sent =
    some (nic_event EventType.nic_mmio_w 10) ∷ some (nic_event EventType.nic_tx 11) ∷ []

two_marks :
    Runs
      (consume_all handler running written_and_sent new_nic_spanner)
      new_world
      (0 ∷ 1 ∷ [])
      (0 ∷ 1 ∷ [])
unfolding consume_all handler begin step add_to_nic_mmio add_to_nic_eth is_type is_potential_add
two_marks = acted (popped (some (some from_the_host))) (
    acted (began _ _ refl) (
      acted (called _ refl) (
        acted (began _ _ refl)
          (acted looked (acted (pushed true) (acted (called _ refl) so_far))))))

marks-Once_example : Once (0 ∷ 1 ∷ []) × IsAmong (0 ∷ 1 ∷ []) (0 ∷ 1 ∷ [])
marks-Once_example =
    marks-Once running written_and_sent new_world (0 ∷ 1 ∷ []) (0 ∷ 1 ∷ []) two_marks

-- The host calls a function that begins a system call, and gets a second one.
abbrev one_function : TraceEnvironment
one_function = record {
  sys_entry = 1 ∷ [];
  kernel_tx = [];
  driver_tx = [];
  kernel_rx = [];
  driver_rx = [];
}

abbrev host_calls : List (Option Event)
host_calls =
    some (record (nic_event EventType.host_call 10) { func = some 1 })
    ∷ some (record (nic_event EventType.host_call 11) { func = some 1 })
    ∷ []

-- The span that the first call starts ends with the same call, so that another is started.
three_spans :
    Runs
      (consume_all (host_handler one_function [] 5) running host_calls new_host_spanner)
      new_world
      (0 ∷ 1 ∷ 2 ∷ [])
      (0 ∷ 1 ∷ [])
unfolding consume_all host_handler begin step add_to_host_call is_type is_potential_add
three_spans = acted (began _ _ refl) (
    acted (called _ refl) (
      acted (called _ refl) (
        acted (began _ _ refl)
          (acted (called _ refl) (acted (called _ refl) (acted (began _ _ refl) so_far))))))

host_marks-Once_example : Once (0 ∷ 1 ∷ []) × IsAmong (0 ∷ 1 ∷ []) (0 ∷ 1 ∷ 2 ∷ [])
host_marks-Once_example =
    host_marks-Once one_function [] 5 running host_calls new_world (0 ∷ 1 ∷ 2 ∷ []) (0 ∷ 1 ∷ [])
      three_spans

-- A packet that enters a device of the network, or leaves it.
abbrev packet : EventType → ℕ → Event
packet type timestamp = record (nic_event type timestamp) {
  network = record no_network { node = 1; device = 2 };
}

-- The host writes to the device while the NIC waits for it, a packet goes through a device of the network, and all
-- use one tracer.
abbrev three_parts : List Part
three_parts =
    nic running (some (nic_event EventType.nic_mmio_w 10) ∷ [])
    ∷ host one_function [] 5 running
        (some (record (nic_event EventType.host_call 10) { func = some 1 }) ∷ [])
    ∷ network [] [] ((1, 2) ∷ []) running (
        some (packet EventType.network_enqueue 20)
        ∷ some (packet EventType.network_dequeue 25)
        ∷ [])
    ∷ []

many_turns : SystemRuns (programs three_parts) new_world (0 ∷ 1 ∷ 2 ∷ [])
unfolding consume_all handler host_handler network_handler begin step add_to_nic_mmio
    add_to_host_call add_to_net_device is_type is_potential_add
many_turns = turn 1 _ _ refl (began _ _ refl) (
    turn 1 _ _ refl (called _ refl) (
      turn 1 _ _ refl (called _ refl) (
        turn 0 _ _ refl (popped (some (some from_the_host))) (
          turn 0 _ _ refl (began _ _ refl) (
            turn 0 _ _ refl (called _ refl) (
              turn 2 _ _ refl (began _ _ refl) (
                turn 2 _ _ refl (called _ refl)
                  (turn 2 _ _ refl (called _ refl) SystemRuns.so_far))))))))

system_marks-Once_example : Once (0 ∷ 1 ∷ 2 ∷ [])
system_marks-Once_example = system_marks-Once three_parts new_world (0 ∷ 1 ∷ 2 ∷ []) many_turns
