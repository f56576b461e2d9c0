-- ===== src/Rtt/Examples.antt =====
-- The theorems on the RTT task at concrete inputs.
use airfrog.Prelude.{
  ◌≡◌, ◌≤◌, ◌%◌, refl, arith, some, none, replicate, true, [], ◌∷◌, ◌++◌, take, drop,
}
use airfrog.Bin.Error.{ok}
use airfrog.Rtt.Local.{LocalBuf, available_space, available_data, write_data}
use airfrog.Rtt.Queue.{IsValid, contents, around, contents-write_data}
use airfrog.Rtt.Task.{State, Command, Response, Rtt, handle_command}
use airfrog.Rtt.Fetch.{TargetTask, get_rtt_data_from_target}
use airfrog.Rtt.Fetched.{Extends, get_rtt_data_from_target-Extends}
use airfrog.Rtt.Reads.{handle_command-takes}

-- A ring with two bytes, the second of which is at the start of the array.
abbrev wrapped : LocalBuf
wrapped = record { data_at = λ i. i % 256; write_pos = 1; read_pos = 4095 }

abbrev running : Rtt
running = record { state = State.started; rtt_cb = none; rtt_up_buf = none; local_buf = wrapped }

wrapped-IsValid : IsValid wrapped
unfolding IsValid
wrapped-IsValid = (omega arith, omega arith)

wrapped_bytes : contents wrapped ≡ 0xff ∷ 0 ∷ []
unfolding contents around available_data
wrapped_bytes = refl

three_fit : 3 ≤ available_space wrapped
unfolding available_space
three_fit = omega arith

contents-write_data_example :
    (contents (write_data wrapped (7 ∷ 8 ∷ 9 ∷ [])) ≡ contents wrapped ++ 7 ∷ 8 ∷ 9 ∷ [])
    × IsValid (write_data wrapped (7 ∷ 8 ∷ 9 ∷ []))
contents-write_data_example = contents-write_data wrapped (7 ∷ 8 ∷ 9 ∷ []) wrapped-IsValid three_fit

handle_command-takes_example :
    ((handle_command (Command.read 1) running).0 ≡ ok (Response.bytes (take 1 (contents wrapped))))
    × (contents (handle_command (Command.read 1) running).1.local_buf ≡ drop 1 (contents wrapped))
    × IsValid (handle_command (Command.read 1) running).1.local_buf
handle_command-takes_example = handle_command-takes running 1 wrapped-IsValid refl

-- A target task whose memory has the low byte of its address in each word.
abbrev bytes_task : TargetTask
bytes_task = record {
  Target = Unit {0};
  read_mem_bulk = λ addr count s. (some (replicate count (addr % 256)), s);
  write_mem = λ addr word s. (true, s);
}

get_rtt_data_from_target-Extends_example :
    Extends wrapped (get_rtt_data_from_target bytes_task (running, tt)).1.0.local_buf
get_rtt_data_from_target-Extends_example =
    get_rtt_data_from_target-Extends bytes_task (running, tt) wrapped-IsValid
