-- ===== src/Commands/Shell.antt =====
-- src/utils/process.{hpp,cpp}, and the reading of loginctl's table. The shell is `popen`: what it
-- gives depends on all commands run before.
use titan_share.Prelude.{
  ℕ, ◌==◌, Bool, false, if◌then◌else◌, Option, none, some, List, [], ◌∷◌, Bytes, codes, eqb, lines,
  words,
}

-- `WIFEXITED` with the status, or not.
pub data WaitStatus : Type 0 where
  exited : ℕ → WaitStatus
  signalled : WaitStatus

pub record Host : Type 0 where
  pub uid : ℕ
  -- The commands run so far, newest first, and the one to run; `none` if `popen` fails.
  pub popen : List Bytes → Bytes → Option (Bytes × WaitStatus)

-- `none` is the exit code -1.
pub record ExecResult : Type 0 where
  pub exit_code : Option ℕ
  pub output : Bytes

unfoldable pub success : ExecResult → Bool
success r = elim r.exit_code [ none ↦ false | some n ↦ n == 0 ]

exit_code_of : WaitStatus → Option ℕ
exit_code_of (exited n) = some n
exit_code_of signalled = none

-- `c_str` as a C function reads it: up to the first null byte.
unfoldable pub c_string : Bytes → Bytes
c_string [] = []
c_string (c ∷ cs) = let rest = c_string cs in if c == 0 then [] else c ∷ rest

-- The result, and the history with what was run.
unfoldable pub exec : Host → Bytes → List Bytes → ExecResult × List Bytes
unfolding exit_code_of c_string
exec host command ran =
    let line = c_string command in
    elim (host.popen ran line) [
      | none ↦ (record { exit_code = none; output = [] }, line ∷ ran)
      | some (output, status) ↦
          (record { exit_code = exit_code_of status; output = output }, line ∷ ran)
    ]

-- `execAsync` and `execDetached` run the same on a thread of their own, here at once. The one hands
-- the result to a callback, if there is one; the other drops it.
unfoldable pub exec_async :
    {C : Type 0} → Host → Bytes → Option (ExecResult → C) → List Bytes → Option C × List Bytes
exec_async host command callback ran =
    let (result, ran') = exec host command ran in
    (elim callback [ none ↦ none | some f ↦ some (f result) ], ran')

unfoldable pub exec_detached : Host → Bytes → List Bytes → List Bytes
exec_detached host command ran = (exec host command ran).1

-- The fields of a line of `loginctl list-sessions`: SESSION UID USER SEAT, and more.
seat0_fields : List Bytes → Option (Bytes × Bytes)
seat0_fields (id ∷ uid ∷ user ∷ seat ∷ _) =
    if eqb seat (codes "seat0") then some (id, user) else none
seat0_fields _ = none

-- Session and user of the first line with the seat "seat0".
unfoldable pub find_seat0 : List Bytes → Option (Bytes × Bytes)
unfolding seat0_fields
find_seat0 [] = none
find_seat0 (l ∷ ls) =
    let later = find_seat0 ls in elim (seat0_fields (words l)) [ some r ↦ some r | none ↦ later ]

unfoldable pub seat0_of : ExecResult → Option (Bytes × Bytes)
unfolding success find_seat0
seat0_of r = if success r then find_seat0 (lines r.output) else none
