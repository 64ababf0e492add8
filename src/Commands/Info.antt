-- ===== src/Commands/Info.antt =====
-- `CommandDispatcher::handleSystemInfo`: the answer to get_info, from the object that
-- src/commands/system_info.cpp collects. `dump` is the JSON library, which raises on
-- a text that is no UTF-8; that is `none`.
use titan_share.Prelude.{Option, none, some, List, [], ◌∷◌, ◌++◌, Bytes, codes}
use titan_share.SystemInfo.Collect.{Value, collect}
use titan_share.SystemInfo.Cpu.{SystemInfo}
use titan_share.SystemInfo.Machine.{Machine, Floats}

-- A member of the answer: a text, or the collected object.
pub data Member : Type 0 where
  text : Bytes → Member
  object : List (Bytes × Value) → Member

unfoldable pub handle_system_info :
    Floats
    → (List (Bytes × Member) → Option Bytes)
    → Machine
    → SystemInfo
    → Option Bytes × SystemInfo
handle_system_info fl dump m s =
    let (info, s') = collect fl m s in
    (
      elim (dump ((codes "type", text (codes "system_info")) ∷ (codes "data", object info) ∷ [])) [
        | none ↦ none
        | some json ↦ some (json ++ b'\n' ∷ [])
      ],
      s',
    )
