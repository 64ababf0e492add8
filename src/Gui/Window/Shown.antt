-- ===== src/Gui/Window/Shown.antt =====
-- What the window shows behind a turn of its timer, and which files it watches then.
use titan_share.Prelude.{
  ℕ, ◌≡◌, refl, ◌∙◌, Bool, true, false, not, ◌||◌, List, [], Bytes, eqb, eqb_iff, eqb_refl,
  is_empty, Assoc, arith, Option-cases, inl, inr, Option, some, lookup, pos,
}
use titan_share.Auth.{SessionManager}
use titan_share.Auth.Persist.{Object, Value, ipc_object}
use titan_share.Gui.DaemonPin.{daemon_path, IsReached, read_pin-ipc_object}
use titan_share.Gui.Ipc.{candidates, pin_file, Json, Disk, Environment, no_pin}
use titan_share.Gui.Newest.{AreOlder}
use titan_share.Gui.Model.{
  Doubles, AppModel, set_pin_code, set_device_name, update_transfer_state, read_transfer_state,
  refresh_pin, tick,
}
use titan_share.Gui.Window.{
  watches, exists, watch_path, Window, Happening, timeout, step, run, pin_path, transfer_path,
  pin_on, host_on, local_hostname,
}

watches-watch_path :
    {T : Type 0} (disk : Disk T) (path : Bytes) (watched : List Bytes)
    → exists disk path ≡ true
    → watches (watch_path disk path watched) path ≡ true
unfolding watches watch_path
watches-watch_path disk path watched h = ground (arith, eqb_refl path)

watch_path_keeps :
    {T : Type 0} (disk : Disk T) (path other : Bytes) (watched : List Bytes)
    → watches watched other ≡ true
    → watches (watch_path disk path watched) other ≡ true
unfolding watches watch_path
watch_path_keeps disk path other watched h = ground arith

module _ (fl : Doubles) where
  set_pin_code_shows : (p : Bytes) (m : AppModel fl) → (set_pin_code fl p m).pin_code ≡ p
  unfolding set_pin_code
  set_pin_code_shows p m = ground (arith, eqb_iff m.pin_code p)

  set_pin_code_keeps :
      (p : Bytes) (m : AppModel fl) → (set_pin_code fl p m).device_name ≡ m.device_name
  unfolding set_pin_code
  set_pin_code_keeps p m = ground arith

  set_device_name_shows : (n : Bytes) (m : AppModel fl) → (set_device_name fl n m).device_name ≡ n
  unfolding set_device_name
  set_device_name_shows n m = ground (arith, eqb_iff m.device_name n)

  update_transfer_state_keeps :
      (active sending : Bool) (f : Bytes) (d : fl.Double) (m : AppModel fl)
      → ((update_transfer_state fl active sending f d m).pin_code ≡ m.pin_code)
        × ((update_transfer_state fl active sending f d m).device_name ≡ m.device_name)
  unfolding update_transfer_state
  update_transfer_state_keeps active sending f d m = ground arith

module _ (fl : Doubles) {T : Type 0} (parse : T → Assoc (Json fl.Double)) (hostname : Bytes) where
  module _ (e : Environment) (disk : Disk T) where
    refresh_pin_shows :
        (m : AppModel fl)
        → ((refresh_pin fl parse (local_hostname hostname) disk e m).pin_code
            ≡ pin_on fl parse hostname e disk)
          × ((refresh_pin fl parse (local_hostname hostname) disk e m).device_name
              ≡ host_on fl parse hostname e disk)
    unfolding refresh_pin
    refresh_pin_shows m = (
      set_pin_code_shows fl _ _,
      set_pin_code_keeps fl _ _ ∙ set_device_name_shows fl (host_on fl parse hostname e disk) m,
    )

    read_transfer_state_keeps :
        (m : AppModel fl)
        → ((read_transfer_state fl parse disk e m).pin_code ≡ m.pin_code)
          × ((read_transfer_state fl parse disk e m).device_name ≡ m.device_name)
    unfolding read_transfer_state
    read_transfer_state_keeps m =
        elim (Option-cases (disk.opened (transfer_path fl parse hostname e disk))) [
          | inl missing ↦
              rw (missing, read_transfer_state) (update_transfer_state_keeps fl false false [] _ m)
          | inr (content, there) ↦
              rw (there, read_transfer_state) (update_transfer_state_keeps fl _ _ _ _ m)
        ]

    -- Whatever happened before, after a turn of the timer the window shows the PIN and the name that
    -- the newest file says by then, and the newest file of the PIN and that of the transfer are
    -- watched, where they are there.
    pub timeout_shows :
        (hs : List (Happening fl parse hostname e)) (w₀ : Window fl parse hostname e)
        → let w = step fl parse hostname e (timeout disk) (run fl parse hostname e hs w₀) in
          (w.model.pin_code ≡ pin_on fl parse hostname e disk)
          × (w.model.device_name ≡ host_on fl parse hostname e disk)
          × ((not (exists disk (pin_path fl parse hostname e disk))
                || watches w.watched (pin_path fl parse hostname e disk))
              ≡ true)
          × ((not (exists disk (transfer_path fl parse hostname e disk))
                || watches w.watched (transfer_path fl parse hostname e disk))
              ≡ true)
    unfolding step tick
    timeout_shows hs w₀ =
        let w = run fl parse hostname e hs w₀ in
        let m = refresh_pin fl parse (local_hostname hostname) disk e w.model in
        let keeps = read_transfer_state_keeps m in
        let shows = refresh_pin_shows w.model in
        let p = pin_path fl parse hostname e disk in
        let t = transfer_path fl parse hostname e disk in
        (
          keeps.0 ∙ shows.0,
          keeps.1 ∙ shows.1,
          ground (
            arith,
            watches-watch_path disk p w.watched,
            watch_path_keeps disk t p (watch_path disk p w.watched),
          ),
          ground (arith, watches-watch_path disk t (watch_path disk p w.watched)),
        )

  -- Let Qt read back the strings of what the daemon's JSON library dumps, and let it dump the
  -- daemon's session. If the daemon may write below /run, or shares with the window an environment in
  -- which the home is not empty where it is set; the window can open the file in which the daemon
  -- persisted its session, as it can where both run as the same user; that file is newer than every
  -- other file that the window looks at; and the daemon's PIN and its host are texts, the PIN not that of six dashes: whatever happened
  -- before, after a turn of the timer the window shows that PIN and that host.
  pub timeout_shows_daemon :
      (dump : Object → Option T)
      → ((o : Object) (content : T) (k s : Bytes)
          → dump o ≡ some content
          → lookup k o ≡ some (Value.text s)
          → lookup k (parse content) ≡ some (Json.text s))
      → (disk : Disk T) (e : Environment) (uid : ℕ) (writable : Bool) (xdg home : Option Bytes)
      → (m : SessionManager) (content : T) (t : ℕ) → IsReached e uid writable xdg home
      → disk.modified (daemon_path uid writable xdg home) ≡ some (pos t)
      → dump (ipc_object m) ≡ some content
      → disk.opened (daemon_path uid writable xdg home) ≡ some content
      → AreOlder disk.modified (daemon_path uid writable xdg home) t (candidates e pin_file)
      → (is_empty m.current_pin || eqb m.current_pin no_pin) ≡ false
      → is_empty m.hostname ≡ false
      → (hs : List (Happening fl parse hostname e)) (w₀ : Window fl parse hostname e)
      → let w = step fl parse hostname e (timeout disk) (run fl parse hostname e hs w₀) in
        (w.model.pin_code ≡ m.current_pin) × (w.model.device_name ≡ m.hostname)
  timeout_shows_daemon dump reads disk e uid writable xdg home m content t r h d f o p n hs w₀ =
      let read =
        read_pin-ipc_object parse dump reads disk e uid writable xdg home m content t r h d f o in
      let shows = timeout_shows e disk hs w₀ in
      (shows.0 ∙ rw read (rw p refl), shows.1 ∙ rw read (rw n refl))
