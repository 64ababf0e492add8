-- ===== src/Notifications/Show.antt =====
-- `showDesktopNotification`: the command line, and the words that a shell makes of it.
use titan_share.Prelude.{
  ℕ, ◌≡◌, refl, sym, ap, ◌∙◌, ◌==◌, Bool, true, false, if◌then◌else◌, Option, none, some, List, [],
  ◌∷◌, ◌++◌, Bytes, codes, contains, contains-append, append_assoc, append-nil, arith,
}
use titan_share.Commands.Shell.{Host, c_string, exec}

-- The command that is put together.
unfoldable pub notify_command : Bytes → Bytes → Bytes → Bytes
notify_command title body app_name =
    codes "notify-send "
    ++ (codes "-a '"
        ++ (app_name
            ++ (codes "' "
                ++ (codes "'"
                    ++ (title
                        ++ (codes "' "
                            ++ (codes "'" ++ (body ++ codes "' 2>/dev/null || true"))))))))

-- `showDesktopNotification`, on the commands run before.
unfoldable pub show_desktop_notification : Host → Bytes → Bytes → Bytes → List Bytes → List Bytes
show_desktop_notification host title body app_name ran =
    (exec host (notify_command title body app_name) ran).1

-- The words of a command line as POSIX splits it at blanks, operators included, with single quotes
-- taken off: within them every byte stands for itself. The word that is being read is `none` between words.
abbrev word : Option Bytes → Bytes
word none = []
word (some w) = w

abbrev emit : Option Bytes → List Bytes → List Bytes
emit none ws = ws
emit (some w) ws = w ∷ ws

abbrev split : Bool → Option Bytes → Bytes → List Bytes
split quoted cur [] = emit cur []
split false cur (c ∷ cs) =
    if c == b'\''
    then split true (some (word cur)) cs
    else if c == b' '
    then emit cur (split false none cs)
    else split false (some (word cur ++ c ∷ [])) cs
split true cur (c ∷ cs) =
    if c == b'\'' then split false cur cs else split true (some (word cur ++ c ∷ [])) cs

abbrev pub shell_words : Bytes → List Bytes
shell_words line = split false none line

split_open :
    (c : ℕ) (cs w : Bytes)
    → c == b'\'' ≡ false
    → split true (some w) (c ∷ cs) ≡ split true (some (w ++ c ∷ [])) cs
split_open c cs w h = rw h refl

split_quoted :
    (t w rest : Bytes)
    → contains t b'\'' ≡ false
    → split true (some w) (t ++ b'\'' ∷ b' ' ∷ rest) ≡ (w ++ t) ∷ split false none rest
unfolding contains
split_quoted [] w rest h = ap (λ v. v ∷ split false none rest) (sym (append-nil w))
split_quoted (c ∷ t) w rest h =
    split_open c (t ++ b'\'' ∷ b' ' ∷ rest) w (ground arith)
    ∙ split_quoted t (w ++ c ∷ []) rest (ground arith)
    ∙ ap (λ v. v ∷ split false none rest) (append_assoc w (c ∷ []) t)

-- The command as the shell splits it.
words-notify_command :
    (title body app_name : Bytes)
    → contains title b'\'' ≡ false
    → contains body b'\'' ≡ false
    → contains app_name b'\'' ≡ false
    → shell_words (notify_command title body app_name)
      ≡ codes "notify-send"
        ∷ codes "-a"
        ∷ app_name
        ∷ title
        ∷ body
        ∷ codes "2>/dev/null"
        ∷ codes "||"
        ∷ codes "true"
        ∷ []
unfolding notify_command
words-notify_command title body app_name t b a =
    ap (λ ws. codes "notify-send" ∷ codes "-a" ∷ ws)
      (split_quoted app_name [] _ a
        ∙ ap (λ ws. app_name ∷ ws)
            (split_quoted title [] _ t
              ∙ ap (λ ws. title ∷ ws) (split_quoted body [] (codes "2>/dev/null || true") b)))

c_string_whole : (s : Bytes) → contains s 0 ≡ false → c_string s ≡ s
unfolding c_string contains
c_string_whole [] h = refl
c_string_whole (c ∷ cs) h = ground (arith, c_string_whole cs)

notify_command-no_null :
    (title body app_name : Bytes)
    → contains title 0 ≡ false
    → contains body 0 ≡ false
    → contains app_name 0 ≡ false
    → contains (notify_command title body app_name) 0 ≡ false
unfolding notify_command contains
notify_command-no_null title body app_name t b a =
    let end = codes "' 2>/dev/null || true" in
    let behind_title = codes "' '" ++ (body ++ end) in
    let behind_name = codes "' '" ++ (title ++ behind_title) in
    ground (
      arith,
      contains-append app_name behind_name 0,
      contains-append title behind_title 0,
      contains-append body end 0,
    )

exec_runs :
    (host : Host) (command : Bytes) (ran : List Bytes)
    → (exec host command ran).1 ≡ c_string command ∷ ran
unfolding exec
exec_runs host command ran = ground arith

-- A notification whose title, text and name have no single quote and no null byte runs one command
-- line, and the words that a shell makes of it have the three as they are, each as one word,
-- whatever blanks, semicolons or other signs of the shell they have.
pub show_desktop_notification-shell_words :
    (host : Host) (title body app_name : Bytes) (ran : List Bytes)
    → contains title b'\'' ≡ false
    → contains body b'\'' ≡ false
    → contains app_name b'\'' ≡ false
    → contains title 0 ≡ false
    → contains body 0 ≡ false
    → contains app_name 0 ≡ false
    → (line : Bytes) × (show_desktop_notification host title body app_name ran ≡ line ∷ ran)
      × (shell_words line
          ≡ codes "notify-send"
            ∷ codes "-a"
            ∷ app_name
            ∷ title
            ∷ body
            ∷ codes "2>/dev/null"
            ∷ codes "||"
            ∷ codes "true"
            ∷ [])
unfolding show_desktop_notification
show_desktop_notification-shell_words host title body app_name ran t b a t0 b0 a0 = (
  notify_command title body app_name,
  exec_runs host (notify_command title body app_name) ran
      ∙ ap (λ l. l ∷ ran)
          (c_string_whole (notify_command title body app_name)
            (notify_command-no_null title body app_name t0 b0 a0)),
  words-notify_command title body app_name t b a,
)
