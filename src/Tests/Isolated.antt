-- ===== src/Tests/Isolated.antt =====
-- The entry points over a host that counts its calls.
use flutter_experiments.Common.{ℕ, true, none, some, [], ◌∷◌, ◌+◌, pos, arith}
use flutter_experiments.Lock.{unlocked}
use flutter_experiments.Table.{Process}
use flutter_experiments.Host.{Outcome, gave, broke}
use flutter_experiments.Exec.{ExecResult}
use flutter_experiments.Exec.Options.{ExecOptions}
use flutter_experiments.Isolation.{AllUntouched, calls-AllUntouched}
use flutter_experiments.Isolation.Calls.{
  Environment, Arguments, file_calls, snapshot_calls, counter_calls, command_calls, job_calls,
  text_calls,
}
use flutter_experiments.Tests.OneHost.{machine_of, process_of}
use flutter_experiments.Tests.Catalogs.{Doc, docs}

abbrev count : {R : Type 0} → R → ℕ → Outcome R × ℕ
count r n = (gave r, n + 1)

abbrev result : ExecResult
result = record { out = []; err_out = []; exit_code = pos 0 }

abbrev options : ExecOptions
options = record { cwd = none; env = []; stdin = none }

abbrev env : Environment Doc ℕ
env = record {
  fs = record {
    service_call = λ name body n. count (record { status = pos 0; body = body }) n;
    read_file = λ path n. count path n;
    write_file = λ path content n. count tt n;
    readdir = λ path n. count [] n;
    stat = λ path n. (broke [], n);
    readlink = λ path n. count path n;
    mkdir = λ path n. count tt n;
    unlink = λ path n. count tt n;
    unmount = λ path n. count tt n;
    chmod = λ path mode n. count tt n;
    symlink = λ target link n. count tt n;
    mount = λ path read_only n. count tt n;
  };
  snapshots = record {
    snapshot = λ n. count [] n;
    snapshot_incremental = λ base n. count base n;
    commit_layer = λ n. count ([], []) n;
  };
  counters = record {
    set_perf_enabled = λ on n. count tt n;
    scrub_perf = λ n. count tt n;
    take_command_perf = λ n. (none, n);
  };
  commands = record {
    default_options = options;
    exec = λ cmd ticks o n. count result n;
    run = λ program args ticks o n. count result n;
  };
  jobs = record {
    default_options = options;
    exec_start = λ cmd o n. count (pos 1) n;
    run_start = λ program args o n. count (pos 1) n;
    exec_poll = λ job n. count none n;
    exec_stdout_peek = λ job n. count [] n;
    exec_cancel = λ job n. count tt n;
  };
  completion = record {
    default_options = options;
    autocomplete = λ source cursor o n. (broke [], n);
  };
  inject_catalog = λ o n. count none n;
  json = docs;
  escape = λ c. c;
  granted = λ n. true;
  bits = 64;
}

-- The text `a`, and one byte.
abbrev arguments : Arguments
arguments = record {
  text = some (97 ∷ 0 ∷ []);
  text2 = some (98 ∷ 0 ∷ []);
  bytes = some (1 ∷ []);
  len = 1;
  number = 0;
  flag = pos 1;
  opts = none;
  argv = none;
  argc = 0;
  buf = some (record { ptr = none; cap = 0; len = 0 });
  buf2 = none;
  cut = record { buf = none; cap = 0; len = none };
  cut2 = record { buf = none; cap = 0; len = none };
  alloc = some (record { ptr = none; len = 0 });
  stat = none;
  cell = some (pos 0);
  poll = record { done = none; exit = none; out = none; err_out = none };
}

-- Two machines, of which the first is called.
abbrev p : Process ℕ
p = record (process_of 0) {
  next_id = 3;
  vms = unlocked ((1, machine_of 0) ∷ (2, machine_of 5) ∷ []);
}

calls-AllUntouched_example :
    AllUntouched p 2 (file_calls env arguments p 1)
    × AllUntouched p 2 (snapshot_calls env arguments p 1)
    × AllUntouched p 2 (counter_calls env arguments p 1)
    × AllUntouched p 2 (command_calls env arguments p 1)
    × AllUntouched p 2 (job_calls env arguments p 1)
    × AllUntouched p 2 (text_calls env arguments p 1)
calls-AllUntouched_example = calls-AllUntouched env arguments p 1 2 (λ e. absurd (omega (arith, e)))
