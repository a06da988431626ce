-- ===== src/Tests/Machines.antt =====
-- A table with one machine: table.rs, tty.rs and the entry points of relay.rs at concrete values. The
-- host of the machine is a list of the states that its ticks will report.
use flutter_experiments.Boot.{
  AosBootOpts, BootPlan, plan_of, read_opts, read_base, all_layers, exclusive, tick_toward_prompt,
}
use flutter_experiments.Boot.Plan.{BaseRead, AllLayersRead, SettingsRead, read_opts-accepted}
use flutter_experiments.Boot.Prompt.{ticked, GoesOn, Stops, tick_toward_prompt_lem}
use flutter_experiments.Common.{
  ℕ, suc, ◌<◌, ◌⊎◌, Bool, false, ◌≤◌, ◌≡◌, refl, Bytes, none, some, List, [], ◌∷◌, pos, minus_one,
  as_i32, if◌then◌else◌, nat_beq, arith, nat_eq,
}
use flutter_experiments.Common.Dict.{lookup}
use flutter_experiments.Error.{message, ok, err}
use flutter_experiments.Lock.{unlocked}
use flutter_experiments.Buf.{AosBuf}
use flutter_experiments.Relay.State.{RelayState, EgressRelayEvent, new, default_http}
use flutter_experiments.Relay.Wire.{WireRelayEvent}
use flutter_experiments.Table.{Vm, Process, clear_error, insert_vm, find_vm, aos_vm_close}
use flutter_experiments.Table.Laws.{insert-find_vm, close-find_vm}
use flutter_experiments.RelayApi.{
  aos_vm_relay_next, aos_vm_relay_http_respond, aos_vm_relay_host_call_respond,
  aos_vm_relay_persist_respond, aos_vm_relay_ws_open, aos_vm_relay_ws_push, aos_vm_relay_ws_close,
}
use flutter_experiments.RelayApi.Errors.{Reported, respond-Reported}
use flutter_experiments.RelayApi.Overflow.{with_new_relay, aos_vm_relay_next_too_small}
use flutter_experiments.Tty.{TickState, runnable, waiting, tick_loop}
use flutter_experiments.Host.{Outcome, gave, broke}
use flutter_experiments.Tty.Take.{aos_vm_take_output}
use flutter_experiments.Tty.Ticks.{go_on, tick_loop-add}
use flutter_experiments.Tty.Output.{
  pending, usable, drained, aos_vm_take_output_lem, aos_vm_take_output_discards,
}

abbrev Script : Type 0
Script = List TickState

tick : Script → Outcome TickState × Script
tick [] = (broke [], [])
tick (s ∷ script) = (gave s, script)

tick_loop-add_example :
    tick_loop tick 3 (pos 1) (runnable ∷ runnable ∷ waiting ∷ [])
    ≡ go_on tick 1 (tick_loop tick 2 (pos 1) (runnable ∷ runnable ∷ waiting ∷ []))
tick_loop-add_example = tick_loop-add tick 1 1 (pos 1) (runnable ∷ runnable ∷ waiting ∷ [])

-- One event waits, and six bytes of output.
abbrev relay : RelayState
relay = record new {
  next = pos 2;
  events = EgressRelayEvent.http_request (pos 1) (71 ∷ []) ∷ [];
  http = (pos 1, default_http) ∷ [];
}

abbrev machine : Vm Script
machine = record {
  host = unlocked (runnable ∷ []);
  out = unlocked (1 ∷ 2 ∷ 3 ∷ 4 ∷ 5 ∷ 6 ∷ []);
  out_stdout = unlocked (1 ∷ 2 ∷ 3 ∷ 4 ∷ 5 ∷ 6 ∷ []);
  out_stderr = unlocked [];
  out_log = unlocked [];
  relay = unlocked relay;
}

abbrev process : Process Script
process = record {
  last_error = none;
  next_id = 2;
  vms = unlocked ((1, machine) ∷ []);
  channels = [];
}

insert-find_vm_example :
    let (id, q) = insert_vm process machine in
    (id ≡ 2)
    × (1 ≤ q.next_id)
    × (find_vm q 1 ≡ (if nat_beq id 1 then ok machine else find_vm process 1))
insert-find_vm_example = insert-find_vm process refl machine 1 (omega arith)

close-find_vm_example :
    let (status, q) = aos_vm_close process 1 in
    (status ≡ pos 0)
    × (q.last_error ≡ none)
    × (find_vm q 1 ≡ err (message "unknown handle"))
    × ((aos_vm_close q 1).0 ≡ minus_one)
    × ((aos_vm_close q 1).1.last_error ≡ some (message "aos_vm_close: unknown handle"))
unfolding find_vm lookup
close-find_vm_example = close-find_vm process refl 1 1 machine refl

respond-Reported_example :
    Reported process
      (aos_vm_relay_http_respond process 1 (pos 1) (pos 200) none 0 (some (1 ∷ [])) 1)
    × Reported process
        (aos_vm_relay_host_call_respond process 1 (pos 1) (pos 200) (some (1 ∷ [])) 1)
    × Reported process (aos_vm_relay_persist_respond process 1 (pos 1) (pos 200) (some (1 ∷ [])) 1)
    × Reported process (aos_vm_relay_ws_open process 1 (pos 1) (pos 200))
    × Reported process (aos_vm_relay_ws_push process 1 (pos 1) (some (1 ∷ [])) 1)
    × Reported process (aos_vm_relay_ws_close process 1 (pos 1))
respond-Reported_example = respond-Reported process 1 (pos 1) (pos 200) none (some (1 ∷ [])) 0 1

abbrev three_bytes : WireRelayEvent → Bytes
three_bytes frame = 7 ∷ 8 ∷ 9 ∷ []

abbrev small : AosBuf
small = record { ptr = some (0 ∷ 0 ∷ []); cap = 2; len = 0 }

aos_vm_relay_next_too_small_example :
    let (code, out, q) = aos_vm_relay_next three_bytes process 1 (some small) in
    (code ≡ minus_one)
    × (out ≡ some (record small { len = 3 }))
    × (q.last_error ≡ none)
    × ((r' : RelayState) × (q ≡ with_new_relay three_bytes process 1 machine r') × (r'.events ≡ []))
unfolding find_vm lookup clear_error
aos_vm_relay_next_too_small_example =
    aos_vm_relay_next_too_small three_bytes process 1 machine relay small
      (EgressRelayEvent.http_request (pos 1) (71 ∷ [])) [] refl refl refl (omega arith)

aos_vm_take_output_lem_example :
    let (code, buf, q) = aos_vm_take_output process 1 (some (0 ∷ 0 ∷ 0 ∷ 0 ∷ [])) 4 in
    (code ≡ as_i32 (pos 4))
    × (buf ≡ some (1 ∷ 2 ∷ 3 ∷ 4 ∷ []))
    × (find_vm q 1 ≡ ok (drained machine (5 ∷ 6 ∷ [])))
    × (q.last_error ≡ none)
unfolding find_vm lookup clear_error usable pending
aos_vm_take_output_lem_example =
    aos_vm_take_output_lem process 1 4 machine (0 ∷ 0 ∷ 0 ∷ 0 ∷ []) refl refl (omega arith)

aos_vm_take_output_discards_example :
    let (code, out, q) = aos_vm_take_output process 1 none 0 in
    (code ≡ as_i32 (pos 6)) × (out ≡ none) × (find_vm q 1 ≡ ok (drained machine []))
unfolding find_vm lookup clear_error usable pending
aos_vm_take_output_discards_example = aos_vm_take_output_discards process 1 machine none refl refl

never : Script → Bool
never script = false

tick_toward_prompt_lem_example :
    let script = runnable ∷ waiting ∷ runnable ∷ [] in
    (k : ℕ) × (k ≤ 64)
    × (tick_toward_prompt tick never script ≡ ticked tick never k script)
    × ((j : ℕ) → suc j < k → GoesOn tick never (ticked tick never j script))
    × ((k ≡ 64) ⊎ ((j : ℕ) × (suc j ≡ k) × Stops tick never (ticked tick never j script)))
tick_toward_prompt_lem_example =
    tick_toward_prompt_lem tick never (runnable ∷ waiting ∷ runnable ∷ [])

abbrev options : AosBootOpts
options = record {
  size = 0;
  base_image = some (1 ∷ 2 ∷ []);
  base_image_len = 2;
  layers = none;
  layer_lens = none;
  layer_count = 0;
  deterministic = pos 1;
  has_contract = pos 0;
  contract_tier = pos 0;
  contract_budget_mib = pos 0;
  contract_fuel = pos 0;
  workers = 2;
  net = pos 1;
  host_call = pos 1;
  host_call_sidecar_only = pos 0;
  persist = pos 0;
  tool_approval = pos 0;
  connections_blob = none;
  connections_len = 0;
  connection_policies_blob = none;
  connection_policies_len = 0;
}

abbrev plan : BootPlan
plan = plan_of options (some (1 ∷ 2 ∷ [])) []

read_opts-accepted_example :
    ((plan.base ≡ none) ⊎ (plan.layers ≡ []))
    × BaseRead options.base_image 2 plan.base
    × AllLayersRead 0 options.layers options.layer_lens plan.layers
    × SettingsRead options plan
unfolding read_opts read_base all_layers exclusive
read_opts-accepted_example = read_opts-accepted options plan refl
