-- ===== src/Tests/OneHost.antt =====
-- A table with one machine, for hosts of any type.
use flutter_experiments.Common.{[], ◌∷◌, none}
use flutter_experiments.Lock.{unlocked}
use flutter_experiments.Relay.State.{new}
use flutter_experiments.Table.{Vm, Process}

module _ {H : Type 0} where
  abbrev pub machine_of : H → Vm H
  machine_of h = record {
    host = unlocked h;
    out = unlocked [];
    out_stdout = unlocked [];
    out_stderr = unlocked [];
    out_log = unlocked [];
    relay = unlocked new;
  }

  abbrev pub process_of : H → Process H
  process_of h = record {
    last_error = none;
    next_id = 2;
    vms = unlocked ((1, machine_of h) ∷ []);
    channels = [];
  }
