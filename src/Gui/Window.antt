-- ===== src/Gui/Window.antt =====
-- The rest of `main` of src_gui/main.cpp: the watched files, the timer, and the two handlers. What
-- happens comes with the disk as it is then; Qt takes a file that goes away off the watched ones.
pub mod Shown
use titan_share.Prelude.{
  ℕ, zero, suc, ◌+◌, ◌-◌, ◌≤◌, ◌≡◌, ◌≢◌, refl, sym, ap, ◌∙◌, Bool, true, false, not, ◌&&◌, ◌||◌,
  if◌then◌else◌, Option, none, some, List, [], ◌∷◌, ◌++◌, length, take, drop, Bytes, codes, eqb,
  eqb_iff, eqb_refl, is_empty, Assoc, arith, Bool-cases, inl, inr, ltb,
}
use titan_share.Gui.Ipc.{
  Json, Disk, Environment, get_ipc_file_path, no_pin, pin_file, transfer_file, read_pin,
}
use titan_share.Gui.Model.{
  Doubles, AppModel, set_pin_code, set_device_name, update_transfer_state, read_transfer_state,
  refresh_pin, tick,
}

unfoldable pub ends_with : Bytes → Bytes → Bool
ends_with path suffix =
    if ltb (length path) (length suffix)
    then false
    else eqb (drop (length path - length suffix) path) suffix

-- `files().contains`.
unfoldable pub watches : List Bytes → Bytes → Bool
watches [] path = false
watches (f ∷ fs) path = eqb f path || watches fs path

-- `QFile::exists`.
unfoldable pub exists : {T : Type 0} → Disk T → Bytes → Bool
exists disk path = elim (disk.modified path) [ none ↦ false | some _ ↦ true ]

-- A path that is there and not watched yet is watched.
unfoldable pub watch_path : {T : Type 0} → Disk T → Bytes → List Bytes → List Bytes
watch_path disk path watched =
    if not (watches watched path) && exists disk path then path ∷ watched else watched

unfoldable pub forget_path : Bytes → List Bytes → List Bytes
forget_path path [] = []
forget_path path (f ∷ fs) = let rest = forget_path path fs in if eqb f path then rest else f ∷ rest

-- `localHostname`: the buffer has room for 255 bytes of what `gethostname` gives.
unfoldable pub local_hostname : Bytes → Bytes
local_hostname name = take 255 name

module _ (fl : Doubles) {T : Type 0} (parse : T → Assoc (Json fl.Double)) (hostname : Bytes) where
  module _ (e : Environment) where
    pub record Window : Type 0 where
      pub model : AppModel fl
      pub watched : List Bytes

    pub data Happening : Type 0 where
      file_changed : Bytes → Disk T → Happening
      timeout : Disk T → Happening
      file_gone : Bytes → Happening

    abbrev pub pin_path : Disk T → Bytes
    pin_path disk = get_ipc_file_path disk.modified e pin_file

    abbrev pub transfer_path : Disk T → Bytes
    transfer_path disk = get_ipc_file_path disk.modified e transfer_file

    -- Before the loop of Qt, on the model as it was made.
    unfoldable pub opening : Disk T → AppModel fl → Window
    opening disk m = record {
      model = tick fl parse (local_hostname hostname) disk e m;
      watched = watch_path disk (transfer_path disk) (watch_path disk (pin_path disk) []);
    }

    unfoldable pub step : Happening → Window → Window
    step (file_changed path disk) w =
        if ends_with path pin_file
        then record w {
          model = refresh_pin fl parse (local_hostname hostname) disk e w.model;
          watched = watch_path disk path w.watched;
        }
        else if ends_with path transfer_file
        then record w {
          model = read_transfer_state fl parse disk e w.model;
          watched = watch_path disk path w.watched;
        }
        else w
    step (timeout disk) w = record w {
      model = tick fl parse (local_hostname hostname) disk e w.model;
      watched = watch_path disk (transfer_path disk) (watch_path disk (pin_path disk) w.watched);
    }
    step (file_gone path) w = record w { watched = forget_path path w.watched }

    unfoldable pub run : List Happening → Window → Window
    run [] w = w
    run (h ∷ hs) w = run hs (step h w)

    -- What the files say that the window has to show.
    abbrev pub pin_on : Disk T → Bytes
    pin_on disk =
        let (p, h) = read_pin parse disk e in if is_empty p || eqb p no_pin then no_pin else p

    abbrev pub host_on : Disk T → Bytes
    host_on disk =
        let (p, h) = read_pin parse disk e in if is_empty h then local_hostname hostname else h
