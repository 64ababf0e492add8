-- ===== src/Gui/Model.antt =====
-- `AppModel`: what the window shows, with the number of times that it told the window of a change.
use titan_share.Prelude.{
  ℕ, suc, Bool, false, not, ◌||◌, if◌then◌else◌, Option, none, some, [], Bytes, codes, eqb,
  is_empty, Assoc, lookup,
}
use titan_share.Gui.Ipc.{
  Json, flag, number, Disk, Environment, get_ipc_file_path, no_pin, transfer_file, to_text,
  read_pin,
}

-- `double`, with its zero and `==`.
pub record Doubles : Type 1 where
  pub Double : Type 0
  pub nothing : Double
  pub equal : Double → Double → Bool

module _ (fl : Doubles) where
  pub record AppModel : Type 0 where
    pub pin_code : Bytes
    pub device_name : Bytes
    pub transfer_active : Bool
    pub transfer_is_sending : Bool
    pub transfer_filename : Bytes
    pub transfer_progress : fl.Double
    pub pin_code_changed : ℕ
    pub device_name_changed : ℕ
    pub transfer_changed : ℕ

  -- `setPinCode` and `setDeviceName`.
  unfoldable pub set_pin_code : Bytes → AppModel → AppModel
  set_pin_code p m =
      if eqb m.pin_code p
      then m
      else record m { pin_code = p; pin_code_changed = suc m.pin_code_changed }

  unfoldable pub set_device_name : Bytes → AppModel → AppModel
  set_device_name n m =
      if eqb m.device_name n
      then m
      else record m { device_name = n; device_name_changed = suc m.device_name_changed }

  abbrev same_flag : Bool → Bool → Bool
  same_flag a b = if a then b else not b

  -- `updateTransferState`.
  unfoldable pub update_transfer_state : Bool → Bool → Bytes → fl.Double → AppModel → AppModel
  update_transfer_state active is_sending filename progress m =
      if not (same_flag m.transfer_active active)
        || not (same_flag m.transfer_is_sending is_sending)
        || not (eqb m.transfer_filename filename)
        || not (fl.equal m.transfer_progress progress)
      then record m {
        transfer_active = active;
        transfer_is_sending = is_sending;
        transfer_filename = filename;
        transfer_progress = progress;
        transfer_changed = suc m.transfer_changed;
      }
      else m

  module _ {T : Type 0} (parse : T → Assoc (Json fl.Double)) where
    abbrev to_flag : Option (Json fl.Double) → Bool
    to_flag (some (flag b)) = b
    to_flag _ = false

    abbrev to_number : Option (Json fl.Double) → fl.Double
    to_number (some (number d)) = d
    to_number _ = fl.nothing

    -- `readTransferState`.
    unfoldable pub read_transfer_state : Disk T → Environment → AppModel → AppModel
    read_transfer_state disk e m =
        elim (disk.opened (get_ipc_file_path disk.modified e transfer_file)) [
          | none ↦ update_transfer_state false false [] fl.nothing m
          | some content ↦
              update_transfer_state (to_flag (lookup (codes "active") (parse content)))
                (to_flag (lookup (codes "is_sending") (parse content)))
                (to_text (lookup (codes "filename") (parse content)) [])
                (to_number (lookup (codes "progress") (parse content))) m
        ]

    -- `refreshPin`, with `gethostname`.
    unfoldable pub refresh_pin : Bytes → Disk T → Environment → AppModel → AppModel
    refresh_pin hostname disk e m =
        let (p, h) = read_pin parse disk e in
        set_pin_code (if is_empty p || eqb p no_pin then no_pin else p)
          (set_device_name (if is_empty h then hostname else h) m)

    -- The timer's handler; its watching of the files is Qt's.
    unfoldable pub tick : Bytes → Disk T → Environment → AppModel → AppModel
    tick hostname disk e m = read_transfer_state disk e (refresh_pin hostname disk e m)
