-- ===== src/Mirror/Window.antt =====
-- src/mirror/mirror_receiver.cpp: the window of the video sink is renamed over Xlib, and the bus
-- handler that finds it. Xlib and GStreamer are parameters; calls are listed in their order.
use titan_share.Prelude.{
  ℕ, ◌+◌, ◌-◌, ◌*◌, ◌≤◌, ◌<◌, ◌==◌, ◌≡◌, sym, ap, ◌∙◌, Bool, false, ◌||◌, if◌then◌else◌, Option,
  none, some, List, [], ◌∷◌, ◌++◌, length, length-append, take, take_all, Bytes, codes, eqb, arith,
}
use titan_share.Mirror.Pipeline.{Element, Impl, set_sink_properties}

abbrev pub title : Bytes
title = codes "TITANMIRROR"

-- `snprintf(buf + at, size, "%s", text)`, of a text without a zero byte, into a buffer whose bytes
-- from `at` on are not needed: what the buffer has then, up to the zero byte. It returns the length
-- of the text, and writes nothing where the size is 0.
unfoldable pub snprintf_at : Bytes → ℕ → ℕ → Bytes → Bytes
snprintf_at buf at size text =
    if size == 0 then buf else take at buf ++ take (size - 1) text ++ 0 ∷ []

-- The bytes of WM_CLASS in a buffer of 128 bytes, and the length that is handed over, for a name of
-- fewer bytes than that.
unfoldable pub wm_class : Bytes → Bytes × ℕ
wm_class name =
    let res_name_len = length name in
    let buf = snprintf_at [] 0 128 name in
    let buf' = snprintf_at buf (res_name_len + 1) (128 - res_name_len - 1) name in
    (buf', res_name_len + 1 + length name + 1)

pub data XCall : Type 0 where
  stores_name sets_icon_name : ℕ → Bytes → XCall
  -- `XChangeProperty`, with the names of the property and of its type, and as many bytes of a buffer.
  changes_property : ℕ → Bytes → Bytes → Bytes → ℕ → XCall
  sets_class_hint : ℕ → Bytes → Bytes → XCall
  -- The aspect, with its two bounds.
  sets_aspect : ℕ → ℕ × ℕ → ℕ × ℕ → XCall
  flushes closes_display : XCall

-- `onPrepareXWindowId`, on whether the display opens.
unfoldable pub rename_window : Bool → ℕ → List XCall
rename_window opens xid =
    if opens
    then stores_name xid title
      ∷ sets_icon_name xid title
      ∷ changes_property xid (codes "_NET_WM_NAME") (codes "UTF8_STRING") title (length title)
      ∷ changes_property xid (codes "_NET_WM_ICON_NAME") (codes "UTF8_STRING") title (length title)
      ∷ sets_class_hint xid title title
      ∷ changes_property xid (codes "WM_CLASS") (codes "STRING") (wm_class title).0
          (wm_class title).1
      ∷ sets_aspect xid (192, 407) (192, 407)
      ∷ flushes
      ∷ closes_display
      ∷ []
    else []

-- A message on the bus: the name of its structure if it is an element's and has one, its source, and
-- the fields "xid" and "window-handle".
pub record SyncMessage : Type 0 where
  pub name : Option Bytes
  pub source : Option Element
  pub xid : Option ℕ
  pub window_handle : Option ℕ

abbrev is_prepare : Option Bytes → Bool
is_prepare none = false
is_prepare (some name) =
    eqb name (codes "prepare-window-handle") || eqb name (codes "prepare-xwindow-id")

-- The number of the window; 0 is none.
unfoldable pub window_of : SyncMessage → ℕ
window_of m = elim m.xid [
  | some xid ↦ xid
  | none ↦ elim m.window_handle [ some xid ↦ xid | none ↦ 0 ]
]

-- `setSinkPropertiesAndSignals`, of an element or a null pointer.
unfoldable pub set_sink : Option Element → Impl → Impl
set_sink none i = i
set_sink (some e) i = set_sink_properties e i

-- `busSyncHandler`.
unfoldable pub bus_sync_handler : Bool → SyncMessage → Impl → Impl × List XCall
bus_sync_handler opens m i =
    if is_prepare m.name
    then (set_sink m.source i, if window_of m == 0 then [] else rename_window opens (window_of m))
    else (i, [])

-- A write that has room is the text behind what stands before it.
snprintf_at_fits :
    (buf : Bytes) (size : ℕ) (text : Bytes)
    → length text < size
    → snprintf_at buf (length buf) size text ≡ buf ++ text ++ 0 ∷ []
unfolding snprintf_at
snprintf_at_fits buf size text h =
    let room : (size == 0) ≡ false = ground arith in
    rw (room, take_all (length buf) buf (omega arith), take_all (size - 1) text (omega arith))

wm_class_bytes :
    (name : Bytes)
    → 2 * length name + 2 ≤ 128
    → (wm_class name).0 ≡ (name ++ 0 ∷ []) ++ name ++ 0 ∷ []
unfolding wm_class
wm_class_bytes name h =
    let first : snprintf_at [] 0 128 name ≡ name ++ 0 ∷ [] =
      snprintf_at_fits [] 128 name (omega arith) in
    let behind : length name + 1 ≡ length (name ++ 0 ∷ []) = sym (length-append name (0 ∷ [])) in
    ap (λ b. snprintf_at b (length name + 1) (128 - length name - 1) name) first
    ∙ ap (λ k. snprintf_at (name ++ 0 ∷ []) k (128 - length name - 1) name) behind
    ∙ snprintf_at_fits (name ++ 0 ∷ []) (128 - length name - 1) name (omega arith)

-- For every name that fits the buffer twice, the bytes are those of WM_CLASS: the name twice, each
-- with a zero byte behind it, and all of them are handed over.
pub wm_class_lem :
    (name : Bytes)
    → 2 * length name + 2 ≤ 128
    → ((wm_class name).0 ≡ (name ++ 0 ∷ []) ++ name ++ 0 ∷ [])
      × ((wm_class name).1 ≡ length (wm_class name).0)
      × ((wm_class name).1 ≤ 128)
unfolding wm_class
wm_class_lem name h =
    let bytes = wm_class_bytes name h in
    (
      bytes,
      sym (
          ap length bytes
          ∙ omega (
            arith,
            length-append ((name ++ 0 ∷ []) ++ name) (0 ∷ []),
            length-append (name ++ 0 ∷ []) name,
            length-append name (0 ∷ []),
          )),
      omega arith,
    )
