-- ===== src/Notifications/Tests.antt =====
-- A notification with signs of the shell in it, and one that D-Bus hands out.
use titan_share.Prelude.{◌≡◌, refl, true, some, [], ◌∷◌, Bytes, codes, contains}
use titan_share.Notifications.Monitor.{
  text, other, Turn, Bridge, listen, read_notification, take_text, monitor_loop,
}
use titan_share.Notifications.Show.{
  show_desktop_notification, shell_words, show_desktop_notification-shell_words,
}
use titan_share.Commands.Shell.{Host, exited}

abbrev host : Host
host = record { uid = 1000; popen = λ ran command. some ([], exited 0) }

show_desktop_notification-shell_words_example :
    (line : Bytes) × (show_desktop_notification host
        (codes "a; b")
        (codes "$(reboot)")
        (codes "App")
        []
      ≡ line ∷ [])
    × (shell_words line
        ≡ codes "notify-send"
          ∷ codes "-a"
          ∷ codes "App"
          ∷ codes "a; b"
          ∷ codes "$(reboot)"
          ∷ codes "2>/dev/null"
          ∷ codes "||"
          ∷ codes "true"
          ∷ [])
unfolding contains
show_desktop_notification-shell_words_example =
    show_desktop_notification-shell_words host (codes "a; b") (codes "$(reboot)") (codes "App") []
      refl refl refl refl refl refl

-- The arguments of Notify: a name, an id, an icon, a summary, a text, and more.
abbrev mail : Turn
mail = record {
  still_running = true;
  message = some (record {
    is_notify = true;
    args =
        text (codes "mail")
        ∷ other
        ∷ text (codes "icon")
        ∷ text (codes "New")
        ∷ text (codes "Hi")
        ∷ other
        ∷ [];
  });
}

abbrev bridge : Bridge
bridge = record { has_callback = true; running = true }

test_mail :
    monitor_loop bridge true (mail ∷ [])
    ≡ record {
      app_name = codes "mail";
      summary = codes "New";
      body = codes "Hi";
      icon = codes "icon";
    }
      ∷ []
unfolding monitor_loop listen read_notification take_text
test_mail = refl
