-- ===== src/ReadFile/Stops.antt =====
-- src/read_file.c: reading a file ends, and waiting for a child that does not end does not.
use honas.Common.{ℕ, zero, suc, ◌≡◌, refl, true, List, ◌++◌, replicate}
use honas.ReadFile.{Waited, still_running, wait_child, read_file_close}

wait_child_running :
    (n : ℕ) (later : List Waited)
    → wait_child 250 (replicate n still_running ++ later) ≡ wait_child 250 later
unfolding wait_child
wait_child_running zero later = refl
wait_child_running (suc n) later = wait_child_running n later

-- However often `waitpid` tells that the child still runs, the function goes on as if it had not
-- been asked: the 2.5 seconds never pass, and the child is not killed.
pub read_file_close_waits :
    (n : ℕ) (later : List Waited)
    → read_file_close true (replicate n still_running ++ later) ≡ read_file_close true later
unfolding read_file_close
read_file_close_waits n later = wait_child_running n later
