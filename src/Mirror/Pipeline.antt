-- ===== src/Mirror/Pipeline.antt =====
-- src/mirror/mirror_receiver.cpp: the GStreamer pipeline. What GStreamer answers is a parameter; the
-- calls are listed, newest first.
pub mod Balance
use titan_share.Prelude.{
  ℕ, zero, suc, Bool, true, false, if◌then◌else◌, Option, none, some, List, [], ◌∷◌, ◌++◌, Bytes,
  codes, ◌&&◌, ◌||◌, eqb, ◌==◌,
}

-- What a caller has to give back; a signal watch is given back by `gst_bus_remove_signal_watch`.
pub data Owned : Type 0 where
  pipeline_ref appsrc_ref bus_ref caps_ref sink_iterator gst_error debug_text signal_watch : Owned

pub data State : Type 0 where
  null_state ready playing : State

pub data GstCall : Type 0 where
  takes gives_back : Owned → GstCall
  -- `gst_init` with the two names, and `system`.
  inits : GstCall
  runs : Bytes → GstCall
  -- `gst_parse_launch` and `gst_element_set_state`.
  launches : Bytes → GstCall
  sets_state : State → GstCall
  -- The handlers on the pipeline and on its bus.
  watches_elements handles_bus_at_once watches_bus : GstCall
  -- The title and the two signals of an element, and the caps of the source.
  sets_title connects_window connects_handle announces_jpeg : GstCall

-- An element of the pipeline: whether it has a title, and whether it is a video overlay.
pub record Element : Type 0 where
  pub has_title : Bool
  pub is_overlay : Bool

-- What one `gst_parse_launch` gives: a pipeline, and an error. GStreamer may give both.
pub record Launch : Type 0 where
  pub made : Bool
  pub error : Bool

pub record Gst : Type 0 where
  pub first : Launch
  pub second : Launch
  pub has_src : Bool
  pub sinks : List Element
  pub plays : Bool

-- The members `pipeline` and `appsrc` (whether they are set), the flag of `call_once`, and the calls.
pub record Impl : Type 0 where
  pub pipeline : Bool
  pub appsrc : Bool
  pub gst_ready : Bool
  pub calls : List GstCall

abbrev pub call : GstCall → Impl → Impl
call c i = record i { calls = c ∷ i.calls }

-- The calls of one list, in its order.
abbrev pub call_all : List GstCall → Impl → Impl
call_all [] i = i
call_all (c ∷ cs) i = call_all cs (call c i)

abbrev wayland_launch : Bytes
wayland_launch =
    codes "appsrc name=src format=time is-live=true do-timestamp=false "
    ++ codes " ! queue max-size-buffers=4 leaky=downstream "
    ++ codes " ! jpegdec "
    ++ codes " ! videoscale "
    ++ codes " ! video/x-raw,width=384,height=814 "
    ++ codes " ! videoconvert "
    ++ codes " ! waylandsink name=vsink sync=false force-aspect-ratio=false"

abbrev auto_launch : Bytes
auto_launch =
    codes "appsrc name=src format=time is-live=true do-timestamp=false "
    ++ codes " ! queue max-size-buffers=4 leaky=downstream "
    ++ codes " ! jpegdec "
    ++ codes " ! videoconvert "
    ++ codes " ! autovideosink name=vsink sync=false"

-- The rule that is set for what is matched, "class" or "title".
abbrev window_rule : Bytes → Bytes → GstCall
window_rule matched rule = runs (
    codes "hyprctl keyword windowrule \"match:"
    ++ matched
    ++ codes " ^(TITANMIRROR)$, "
    ++ rule
    ++ codes "\" >/dev/null 2>&1")

abbrev window_rules : Bytes → List GstCall
window_rules matched =
    window_rule matched (codes "float on")
    ∷ window_rule matched (codes "size 384 814")
    ∷ window_rule matched (codes "center on")
    ∷ window_rule matched (codes "rounding 26")
    ∷ window_rule matched (codes "border_size 0")
    ∷ []

-- `setSinkPropertiesAndSignals` on an element.
unfoldable pub set_sink_properties : Element → Impl → Impl
set_sink_properties e i =
    let i' = if e.has_title then call sets_title i else i in
    if e.is_overlay then call connects_handle (call connects_window i') else i'

unfoldable pub set_sinks : List Element → Impl → Impl
set_sinks [] i = i
set_sinks (e ∷ es) i = set_sinks es (set_sink_properties e i)

unfoldable pub init_gst : Impl → Impl
init_gst i = if i.gst_ready then i else call inits (record i { gst_ready = true })

unfoldable pub rule_windows : Bool → Impl → Impl
rule_windows hyprland i =
    if hyprland
    then call_all (window_rules (codes "class") ++ window_rules (codes "title")) i
    else i

-- `gst_parse_launch`: the pipeline is the member, the error a local.
unfoldable pub launch : Bytes → Launch → Impl → Impl
launch text l i =
    let i' = record i { pipeline = l.made; calls = launches text ∷ i.calls } in
    let i'' = if l.made then call (takes pipeline_ref) i' else i' in
    if l.error then call (takes gst_error) i'' else i''

unfoldable pub free_error : Launch → Impl → Impl
free_error l i = if l.error then call (gives_back gst_error) i else i

-- The first of the two texts that gives a pipeline.
unfoldable pub launch_either : Gst → Impl → Impl
launch_either g i =
    let i' = launch wayland_launch g.first i in
    if g.first.made
    then i'
    else let i'' = launch auto_launch g.second (free_error g.first i') in
      if g.second.made then i'' else free_error g.second i''

unfoldable pub cleanup_pipeline : Impl → Impl
cleanup_pipeline i =
    let i' =
      if i.pipeline
      then record i {
        pipeline = false;
        calls = gives_back pipeline_ref ∷ sets_state null_state ∷ i.calls;
      }
      else i in
    if i'.appsrc then record i' { appsrc = false; calls = gives_back appsrc_ref ∷ i'.calls } else i'

abbrev bus_calls : List GstCall
bus_calls =
    watches_elements
    ∷ takes bus_ref
    ∷ handles_bus_at_once
    ∷ takes signal_watch
    ∷ watches_bus
    ∷ gives_back bus_ref
    ∷ sets_state ready
    ∷ takes sink_iterator
    ∷ []

abbrev caps_calls : List GstCall
caps_calls =
    gives_back sink_iterator
    ∷ takes caps_ref
    ∷ announces_jpeg
    ∷ gives_back caps_ref
    ∷ sets_state playing
    ∷ []

-- From the found source on.
unfoldable pub play : Gst → Impl → Bool × Impl
play g i =
    let i' = call_all caps_calls (set_sinks g.sinks (call_all bus_calls i)) in
    if g.plays then (true, i') else (false, cleanup_pipeline i')

-- From the launched pipeline on.
unfoldable pub find_src : Gst → Impl → Bool × Impl
find_src g i =
    if g.has_src then play g (record i { appsrc = true; calls = takes appsrc_ref ∷ i.calls }) else (
      false,
      record i { pipeline = false; appsrc = false; calls = gives_back pipeline_ref ∷ i.calls },
    )

-- `buildPipeline`, on whether Hyprland's variable is set.
unfoldable pub build_pipeline : Bool → Gst → Impl → Bool × Impl
build_pipeline hyprland g i =
    let i' = record (rule_windows hyprland (init_gst i)) { pipeline = false; appsrc = false } in
    let i'' = launch_either g i' in if i''.pipeline then find_src g i'' else (false, i'')

-- The kind of a message on the bus; an error brings its texts, a warning those of its own.
pub data BusMessage : Type 0 where
  error_message warning_message : Bool → Bool → BusMessage
  eos other_message : BusMessage

abbrev free_if : Bool → Owned → List GstCall
free_if there o = if there then takes o ∷ gives_back o ∷ [] else []

-- `onBusMessage`: what is parsed out of the message is taken and freed.
unfoldable pub on_bus_message : BusMessage → Impl → Impl
on_bus_message (error_message err dbg) i =
    call_all (free_if err gst_error ++ free_if dbg debug_text) i
on_bus_message (warning_message err dbg) i =
    call_all (free_if err gst_error ++ free_if dbg debug_text) i
on_bus_message _ i = i
